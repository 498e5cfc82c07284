-- ===== src/Arduino/Waiting.antt =====
-- examples/arduino/RuntimeSyntheticHarness: its waits and their deadline. The worker runs during the
-- delays of a wait.
use esp32_vehicle_can_core.Prelude.{
  ℕ, zero, suc, ◌+◌, ◌<◌, ◌≤◌, ◌≡◌, inl, inr, Bool, true, Option, none, some, if◌then◌else◌, arith,
  ltb, Bool-cases, u32, sub32,
}
use esp32_vehicle_can_core.Telemetry.Runtime.{Surroundings, Runtime}
use esp32_vehicle_can_core.Arduino.Harness.{Board, surroundings}

module _ (P : Board) (others : Runtime (surroundings P) → Runtime (surroundings P)) where
  abbrev pub read_millis : Runtime (surroundings P) → Runtime (surroundings P) × ℕ
  read_millis r =
      let h = r.world in
      let (w, now) = P.millis h.world in (record r { world = record h { world = w } }, now)

  -- What happens between two looks of `wait_for`: its delay, with the worker beside.
  abbrev pub after_delay : Runtime (surroundings P) → Runtime (surroundings P)
  after_delay r =
      let h = r.world in others (record r { world = record h { world = P.delay 1 h.world } })

  -- The loop of `wait_for` for a predicate that may refresh the runtime's diagnostics, and its last
  -- look; no answer means that it still waits.
  unfoldable pub wait_rounds :
      (Runtime (surroundings P) → Runtime (surroundings P) × Bool)
      → ℕ
      → ℕ
      → Runtime (surroundings P)
      → Option (Runtime (surroundings P) × Bool)
  wait_rounds predicate zero began r = none
  wait_rounds predicate (suc fuel) began r =
      let (r1, ready) = predicate r in
      let (r2, now) = read_millis r1 in
      let rest = wait_rounds predicate fuel began (after_delay r2) in
      if ready
      then some (predicate r1)
      else if ltb (sub32 now began) 500
      then rest
      else some (predicate r2)

  unfoldable pub wait_for :
      (Runtime (surroundings P) → Runtime (surroundings P) × Bool)
      → ℕ
      → Runtime (surroundings P)
      → Option (Runtime (surroundings P) × Bool)
  wait_for predicate fuel r = let (r1, began) = read_millis r in wait_rounds predicate fuel began r1

  abbrev E : Surroundings
  E = surroundings P

  -- `time` is what `millis` shows of, as a 32-bit number, and `ticks` counts the ticks of the
  -- scheduler, one a millisecond, so that the two never differ by more than one. Nothing turns them
  -- back, a delay lasts until the next tick at least, so perhaps for less than a millisecond, and no
  -- reading, look or delay takes longer than a minute.
  pub record Passes (predicate : Runtime (surroundings P) → Runtime (surroundings P) × Bool)
      (time ticks : Runtime (surroundings P) → ℕ) : Type 0 where
    pub steady : (r : Runtime (surroundings P)) → (ticks r ≤ time r + 1) × (time r ≤ ticks r + 1)
    pub shown : (r : Runtime (surroundings P)) → (read_millis r).1 ≡ u32 (time r)
    pub read :
        (r : Runtime (surroundings P))
        → (time r ≤ time (read_millis r).0)
          × (time (read_millis r).0 ≤ time r + 60000)
          × (ticks r ≤ ticks (read_millis r).0)
    pub looked :
        (r : Runtime (surroundings P))
        → (time r ≤ time (predicate r).0)
          × (time (predicate r).0 ≤ time r + 60000)
          × (ticks r ≤ ticks (predicate r).0)
    pub delayed :
        (r : Runtime (surroundings P))
        → (time r ≤ time (after_delay r))
          × (time (after_delay r) ≤ time r + 60000)
          × (ticks r + 1 ≤ ticks (after_delay r))

  module _ (predicate : Runtime (surroundings P) → Runtime (surroundings P) × Bool)
      (time ticks : Runtime (surroundings P) → ℕ) where
    abbrev Answers : ℕ → ℕ → Runtime E → Type 0
    Answers fuel began r = (a : Runtime E × Bool) × (wait_rounds predicate fuel began r ≡ some a)

    -- A look that is neither the last nor late.
    abbrev Early : ℕ → Runtime E → Type 0
    Early began r = ltb (sub32 (read_millis (predicate r).0).1 (u32 began)) 500 ≡ true

    abbrev next : Runtime E → Runtime E
    next r = after_delay (read_millis (predicate r).0).0

    look-Answers :
        (fuel began : ℕ) (r : Runtime E)
        → (Early began r → Answers fuel (u32 began) (next r))
        → Answers (suc fuel) (u32 began) r
    unfolding wait_rounds
    look-Answers fuel began r later =
        let (r1, ready) = predicate r in
        let (r2, now) = read_millis r1 in
        elim (Bool-cases ready) [
          | inl seen ↦ (predicate r1, simp seen)
          | inr unseen ↦ elim (Bool-cases (ltb (sub32 now (u32 began)) 500)) [
            | inr late ↦ (predicate r2, simp (unseen, late))
            | inl early ↦ let (a, e) = later early in (a, simp (unseen, early, e))
          ]
        ]

    -- Whether a look is early tells the time that has really passed.
    early_lem :
        (began : ℕ) (r : Runtime E)
        → Passes predicate time ticks
        → began ≤ time r
        → time r ≤ began + 200000
        → Early began r
        → (time (predicate r).0 < began + 500)
          × (began ≤ time (next r))
          × (ticks r + 1 ≤ ticks (next r))
          × (time (next r) ≤ began + 200000)
    early_lem began r passes after near early =
        let r1 = (predicate r).0 in
        let looked = passes.looked r in
        let shown = passes.shown r1 in
        let read = passes.read r1 in
        let delayed = passes.delayed (read_millis r1).0 in
        let within : time r1 < began + 500 = ground (arith, shown, looked) in
        (
          within,
          omega (arith, looked, read, delayed),
          omega (arith, looked, read, delayed),
          omega (arith, within, read, delayed),
        )

    wait_rounds-ends :
        (fuel began : ℕ) (r : Runtime E)
        → Passes predicate time ticks
        → began ≤ time r
        → time r ≤ began + 200000
        → began + 501 ≤ ticks r + fuel
        → Answers (suc fuel) (u32 began) r
    wait_rounds-ends zero began r passes after near enough = look-Answers 0 began r (λ early.
        let within = early_lem began r passes after near early in
        absurd (omega (arith, within, passes.looked r, passes.steady r)))
    wait_rounds-ends (suc fuel) began r passes after near enough =
        look-Answers (suc fuel) began r (λ early.
          let (within, later, gains, close) = early_lem began r passes after near early in
          wait_rounds-ends fuel began (next r) passes later close (omega (arith, gains)))

    -- A wait of the harness sketch ends, whatever it waits for, when nothing turns `millis` or the
    -- ticks of the scheduler back, the two never differ by more than one, a delay lasts until the
    -- next tick at least, and a reading, a look or a delay takes a minute at most: the wait answers
    -- after at most 503 rounds of its loop, also when `millis` wraps meanwhile.
    pub wait_for_ends :
        (r : Runtime (surroundings P))
        → Passes predicate time ticks
        → (a : Runtime (surroundings P) × Bool) × (wait_for predicate 503 r ≡ some a)
    unfolding wait_for
    wait_for_ends r passes =
        let shown = passes.shown r in
        let read = passes.read r in
        let steady = passes.steady (read_millis r).0 in
        rw shown (
          wait_rounds-ends 502 (time r) (read_millis r).0 passes (omega (arith, read))
            (omega (arith, read)) (omega (arith, read, steady)))
