-- ===== src/Telemetry/Budget/Bounds.antt =====
-- What the work budget of components/vehicle_telemetry/src/runtime_budget.hpp bounds.
use esp32_vehicle_can_core.Prelude.{
  ℕ, ◌+◌, ◌≤◌, ◌<◌, ◌≡◌, ◌⊎◌, refl, inl, inr, Bool, true, false, Option, none, some, List, [], ◌∷◌,
  sym, ◌∙◌, arith, length, Option-cases,
}
use esp32_vehicle_can_core.Telemetry.Types.{RuntimeConfig, is_config_valid}
use esp32_vehicle_can_core.Telemetry.Budget.{
  BudgetAction, go_on, checkpoint, pause, WorkBudget, elapsed, after_receive, after_pause, unpaused,
  one_batch, unless_pause, unless_ended,
}

module _ (config : RuntimeConfig) where
  -- Fewer calls than the limit since the last pause, and fewer frames than the batch's limit.
  pub record Within (b : WorkBudget) : Type 0 where
    pub calls : b.receive_calls < config.max_runnable_receive_calls
    pub frames : b.batch_frames < config.max_frames_per_batch

  -- What an accepted configuration gives the budget.
  pub record Limits : Type 0 where
    pub some_frames : 0 < config.max_frames_per_batch
    pub frames_calls : config.max_frames_per_batch ≤ config.max_runnable_receive_calls
    pub few_calls : config.max_runnable_receive_calls ≤ 65535

  pub is_config_valid-Limits : is_config_valid config ≡ true → Limits
  unfolding is_config_valid
  is_config_valid-Limits h = ground arith

  -- The three answers.
  abbrev pub Answered : Bool → ℕ → WorkBudget → WorkBudget × BudgetAction → Type 0
  Answered frame now b (b', action) =
      ((action ≡ pause)
        × ((b'.receive_calls ≡ config.max_runnable_receive_calls)
            ⊎ (elapsed now b.runnable_started config.max_runnable_time_us ≡ true)))
      ⊎ ((action ≡ checkpoint)
          × Within b'
          × (b'.receive_calls ≡ b.receive_calls + 1)
          × (elapsed now b.runnable_started config.max_runnable_time_us ≡ false)
          × (b'.batch_frames ≡ 0)
          × (b'.batch_started ≡ now)
          × (b'.runnable_started ≡ b.runnable_started))
      ⊎ ((action ≡ go_on)
          × Within b'
          × (frame ≡ true)
          × (b'.receive_calls ≡ b.receive_calls + 1)
          × (elapsed now b.runnable_started config.max_runnable_time_us ≡ false)
          × (b'.batch_frames ≡ b.batch_frames + 1)
          × (b'.batch_started ≡ b.batch_started)
          × (b'.runnable_started ≡ b.runnable_started)
          × (elapsed now b.batch_started config.max_batch_time_us ≡ false))

  -- For an accepted configuration and a budget within its limits, the answer is a pause exactly when
  -- this call makes the limit of calls or the limit of time since the last pause is reached, and
  -- that first; else the call is counted, and the batch ends with a checkpoint, which resets the
  -- batch only, or goes on with one frame more and its time not over.
  pub after_receive-Answered :
      (frame : Bool) (now : ℕ) (b : WorkBudget)
      → is_config_valid config ≡ true
      → Within b
      → Answered frame now b (after_receive config frame now b)
  unfolding after_receive
  after_receive-Answered true now b valid w = let l = is_config_valid-Limits valid in ground arith
  after_receive-Answered false now b valid w = let l = is_config_valid-Limits valid in ground arith

  module _ (valid : is_config_valid config ≡ true) where
    unpaused_step :
        (frame : Bool) (now : ℕ) (b : WorkBudget) (rest : Option WorkBudget) (b' : WorkBudget)
        → Within b
        → unless_pause (after_receive config frame now b).1 rest ≡ some b'
        → let b1 = (after_receive config frame now b).0 in
          Within b1
          × (b1.receive_calls ≡ b.receive_calls + 1)
          × (b1.runnable_started ≡ b.runnable_started)
          × (rest ≡ some b')
    unpaused_step frame now b rest b' w e =
        let a = after_receive-Answered frame now b valid w in ground arith

    some-injective : {x y : WorkBudget} → some x ≡ some y → x ≡ y
    some-injective e = cc

    -- Calls that do not ask for a pause are all counted, whatever checkpoints lie between them, and
    -- leave the start of the runnable time.
    unpaused_counts :
        (l : List (Bool × ℕ)) (b b' : WorkBudget)
        → Within b
        → unpaused config l b ≡ some b'
        → Within b'
          × (b'.receive_calls ≡ b.receive_calls + length l)
          × (b'.runnable_started ≡ b.runnable_started)
    unfolding unpaused
    unpaused_counts [] b b' w e =
        let same : b ≡ b' = some-injective e in rw (sym same) (w, omega arith, refl)
    unpaused_counts ((frame, now) ∷ later) b b' w e =
        let b1 = (after_receive config frame now b).0 in
        let (w1, calls, start, e1) = unpaused_step frame now b (unpaused config later b1) b' w e in
        let (w2, calls', start') = unpaused_counts later b1 b' w1 e1 in
        (w2, omega arith, start' ∙ start)

    one_batch_step :
        (frame : Bool) (now : ℕ) (b : WorkBudget) (rest : Option WorkBudget) (b' : WorkBudget)
        → Within b
        → unless_ended (after_receive config frame now b).1 rest ≡ some b'
        → let b1 = (after_receive config frame now b).0 in
          Within b1
          × (b1.batch_frames ≡ b.batch_frames + 1)
          × (b1.batch_started ≡ b.batch_started)
          × (rest ≡ some b')
    one_batch_step frame now b rest b' w e =
        let a = after_receive-Answered frame now b valid w in ground arith

    one_batch_counts :
        (l : List (Bool × ℕ)) (b b' : WorkBudget)
        → Within b
        → one_batch config l b ≡ some b'
        → Within b'
          × (b'.batch_frames ≡ b.batch_frames + length l)
          × (b'.batch_started ≡ b.batch_started)
    unfolding one_batch
    one_batch_counts [] b b' w e =
        let same : b ≡ b' = some-injective e in rw (sym same) (w, omega arith, refl)
    one_batch_counts ((frame, now) ∷ later) b b' w e =
        let b1 = (after_receive config frame now b).0 in
        let (w1, frames, start, e1) =
          one_batch_step frame now b (one_batch config later b1) b' w e in
        let (w2, frames', start') = one_batch_counts later b1 b' w1 e1 in
        (w2, omega arith, start' ∙ start)

    fresh-Within : (now : ℕ) (b : WorkBudget) → Within (after_pause now b)
    unfolding after_pause
    fresh-Within now b =
        let l = is_config_valid-Limits valid in record { calls = omega arith; frames = omega arith }

  -- For an accepted configuration and after a pause, however frames, checkpoints and times come,
  -- the limit of calls is never reached without another pause.
  pause_by_calls :
      (now : ℕ) (b : WorkBudget) (l : List (Bool × ℕ))
      → is_config_valid config ≡ true
      → config.max_runnable_receive_calls ≤ length l
      → unpaused config l (after_pause now b) ≡ none
  unfolding after_pause
  pause_by_calls now b l valid long = elim (Option-cases (unpaused config l (after_pause now b))) [
    | inl e ↦ e
    | inr (b', e) ↦
        let (w, counted, _) =
          unpaused_counts valid l (after_pause now b) b' (fresh-Within valid now b) e in
        let few = w.calls in absurd (omega arith)
  ]

  -- For an accepted configuration and after a pause, as many calls as the limit of frames of a
  -- batch never go without a checkpoint or a pause.
  batch_ends :
      (now : ℕ) (b : WorkBudget) (l : List (Bool × ℕ))
      → is_config_valid config ≡ true
      → config.max_frames_per_batch ≤ length l
      → one_batch config l (after_pause now b) ≡ none
  unfolding after_pause
  batch_ends now b l valid long = elim (Option-cases (one_batch config l (after_pause now b))) [
    | inl e ↦ e
    | inr (b', e) ↦
        let (w, counted, _) =
          one_batch_counts valid l (after_pause now b) b' (fresh-Within valid now b) e in
        let few = w.frames in absurd (omega arith)
  ]

  -- For an accepted configuration, a call made once the runnable time since the last pause is over
  -- asks for a pause, however many calls without a pause, and checkpoints, lie between.
  pub pause_by_time :
      (now later : ℕ) (b b' : WorkBudget) (l : List (Bool × ℕ)) (frame : Bool)
      → is_config_valid config ≡ true
      → unpaused config l (after_pause now b) ≡ some b'
      → now + config.max_runnable_time_us ≤ later
      → (after_receive config frame later b').1 ≡ pause
  unfolding after_pause
  pause_by_time now later b b' l frame valid e late =
      let (w, _, start) =
        unpaused_counts valid l (after_pause now b) b' (fresh-Within valid now b) e in
      let over : elapsed later b'.runnable_started config.max_runnable_time_us ≡ true =
        rw start (ground arith) in
      let a = after_receive-Answered frame later b' valid w in ground arith
