-- ===== src/Telemetry/Runtime/Pausing.antt =====
-- How often run_loop of components/vehicle_telemetry/src/runtime.cpp pauses for its work budget.
use esp32_vehicle_can_core.Prelude.{
  ℕ, zero, suc, ◌+◌, ◌*◌, ◌/◌, ◌≤◌, ◌<◌, ◌≡◌, ◌⊎◌, refl, inl, inr, Bool, true, arith, u64, Option,
  none, some, if◌then◌else◌, Bool-cases, sym, ◌∙◌,
}
use mathlib.Core.Path.{subst, ap}
use esp32_vehicle_can_core.VehicleCore.Frame.{RawCanFrame}
use esp32_vehicle_can_core.Telemetry.Types.{ReceiveStatus, ProcessStatus, is_config_valid}
use esp32_vehicle_can_core.Telemetry.Budget.{
  BudgetAction, go_on, checkpoint, pause, WorkBudget, new_budget, after_receive, after_pause,
}
use esp32_vehicle_can_core.Telemetry.Budget.Bounds.{
  Within, is_config_valid-Limits, Answered, after_receive-Answered,
}
use esp32_vehicle_can_core.Telemetry.Runtime.{
  Surroundings, Runtime, is_fault, count_result, refresh_if_due, frame_received, timed_out_received,
  fault_received, update_silence, refresh_checkpoint,
}
use esp32_vehicle_can_core.Telemetry.Runtime.Loop.{
  handle_frame, handle, poll, delays, budget_pause, acted, after_poll, rounds, run_loop,
}
use esp32_vehicle_can_core.Telemetry.Runtime.Reporting.{
  awake, rounds_stopped, rounds_over, rounds_continue, run_loop_skips, run_loop_enters,
}

module _ (E : Surroundings) where
  -- The configuration and the number of pauses are left alone.
  pub record Steady (r r' : Runtime E) : Type 0 where
    pub config : r'.config ≡ r.config
    pub pauses : r'.diagnostics.work_budget_pauses ≡ r.diagnostics.work_budget_pauses

  refresh_if_due-Steady :
      (now : ℕ) (force : Bool) (r : Runtime E) → Steady r (refresh_if_due E now force r)
  unfolding refresh_if_due
  refresh_if_due-Steady now force r = ground arith

  frame_received-Steady :
      (t : ℕ) (result : ProcessStatus) (r : Runtime E) → Steady r (frame_received E t result r)
  unfolding frame_received count_result
  frame_received-Steady t result r =
      let a = refresh_if_due-Steady t (is_fault result) r in ground (arith, a)

  fault_received-Steady : (t : ℕ) (r : Runtime E) → Steady r (fault_received E t r)
  unfolding fault_received
  fault_received-Steady t r = let a = refresh_if_due-Steady t true r in ground (arith, a)

  timed_out_received-Steady : (r : Runtime E) → Steady r (timed_out_received E r)
  unfolding timed_out_received update_silence refresh_if_due
  timed_out_received-Steady r = ground arith

  refresh_checkpoint-Steady : (r : Runtime E) → Steady r (refresh_checkpoint E r)
  unfolding refresh_checkpoint update_silence
  refresh_checkpoint-Steady r = ground arith

  handle-Steady :
      (status : ReceiveStatus) (f : RawCanFrame) (t : ℕ) (r : Runtime E)
      → Steady r (handle E status f t r)
  unfolding handle handle_frame
  handle-Steady ReceiveStatus.frame f t r =
      let (w, result) = E.process f r.world in
      let a = frame_received-Steady t result (record r { world = w }) in ground (arith, a)
  handle-Steady ReceiveStatus.timeout f t r =
      let a = timed_out_received-Steady r in ground (arith, a)
  handle-Steady ReceiveStatus.fault f t r = let a = fault_received-Steady t r in ground (arith, a)
  handle-Steady ReceiveStatus.not_started f t r =
      let a = fault_received-Steady t r in ground (arith, a)

  -- Numbers of pauses and of calls since a pause, and the same after `n` calls more: either all of
  -- them count for the next pause, or the worker has paused.
  abbrev pub Counts : ℕ → ℕ × ℕ → ℕ × ℕ → Type 0
  Counts n (pauses, calls) (pauses', calls') =
      ((pauses' ≡ pauses) × (calls' ≡ calls + n))
      ⊎ ((k : ℕ) × (0 < k) × (k ≤ n) × (pauses' ≡ u64 (pauses + k)))

  Counts-trans : (n : ℕ) (x y z : ℕ × ℕ) → Counts 1 x y → Counts n y z → Counts (suc n) x z
  Counts-trans n x y z (inl a) (inl b) = inl (omega (arith, a, b), omega (arith, a, b))
  Counts-trans n x y z (inl a) (inr (k, more, few, b)) =
      inr (k, more, omega (arith, few), omega (arith, a, b))
  Counts-trans n x y z (inr (k, more, few, a)) (inl b) =
      inr (k, more, omega (arith, few), omega (arith, a, b))
  Counts-trans n x y z (inr (k, more, few, a)) (inr (m, _, few', b)) =
      inr (k + m, omega (arith, more), omega (arith, few, few'), omega (arith, a, b))

  paused_then :
      (n pauses calls pauses' calls' : ℕ)
      → Counts n (pauses, calls) (pauses', calls')
      → calls' < n
      → (k : ℕ) × (0 < k) × (k ≤ n) × (pauses' ≡ u64 (pauses + k))
  paused_then n pauses calls pauses' calls' (inl (_, all)) few = absurd (omega (arith, all, few))
  paused_then n pauses calls pauses' calls' (inr counted) few = counted

  -- From one state of the loops to another with `n` calls of the source between them.
  abbrev pub Paces : ℕ → Runtime E × WorkBudget → Runtime E × WorkBudget → Type 0
  Paces n (r, b) (r', b') =
      (r'.config ≡ r.config)
      × Within r'.config b'
      × Counts n (r.diagnostics.work_budget_pauses, b.receive_calls)
          (r'.diagnostics.work_budget_pauses, b'.receive_calls)

  module _ (others : Runtime E → Runtime E) (steady : (r : Runtime E) → Steady r (others r)) where
    poll-Steady : (r : Runtime E) → Steady r (poll E others r).0
    unfolding poll
    poll-Steady r =
        let (w, status, f) = E.source_receive r.config.receive_timeout_ms r.world in
        let r1 = others (record r { world = w }) in
        let b = steady (record r { world = w }) in
        let (w1, t) = E.clock_now r1.world in
        let a = handle-Steady status f t (record r1 { world = w1 }) in ground (arith, a, b)

    delays-Steady : (n : ℕ) (r : Runtime E) → Steady r (delays E others n r).0
    unfolding delays
    delays-Steady zero r = record { config = refl; pauses = refl }
    delays-Steady (suc n) r =
        let a = delays-Steady n (others r) in let b = steady r in ground (arith, a, b)

    budget_pause_counts :
        (r : Runtime E)
        → let (r', goes_on) = budget_pause E others r in
          goes_on ≡ true
          → (r'.config ≡ r.config)
            × (r'.diagnostics.work_budget_pauses ≡ u64 (r.diagnostics.work_budget_pauses + 1))
    unfolding budget_pause
    budget_pause_counts r e =
        let d = r.diagnostics in
        let counted : Runtime E = record r {
          diagnostics = record d { work_budget_pauses = u64 (d.work_budget_pauses + 1) };
        } in
        let a = delays-Steady ((r.config.budget_pause_ms * E.tick_rate_hz + 999) / 1000) counted in
        ground (arith, a)

    paused :
        (b : WorkBudget) (r : Runtime E)
        → is_config_valid r.config ≡ true
        → let (r2, b2, goes_on) = acted E others pause b r in
          goes_on ≡ true
          → (r2.config ≡ r.config)
            × Within r2.config b2
            × (r2.diagnostics.work_budget_pauses ≡ u64 (r.diagnostics.work_budget_pauses + 1))
    unfolding after_pause
    paused b r valid e =
        let s = refresh_checkpoint-Steady r in
        let p = budget_pause_counts (refresh_checkpoint E r) in
        let l = is_config_valid-Limits r.config valid in ground (arith, s, p, l)

    acted-Paces :
        (frame : Bool) (now : ℕ) (action : BudgetAction) (b b' : WorkBudget) (r : Runtime E)
        → is_config_valid r.config ≡ true
        → Answered r.config frame now b (b', action)
        → let (r2, b2, goes_on) = acted E others action b' r in
          goes_on ≡ true → Paces 1 (r, b) (r2, b2)
    acted-Paces frame now go_on b b' r valid a e = ground arith
    acted-Paces frame now checkpoint b b' r valid a e =
        let s = refresh_checkpoint-Steady r in ground (arith, s)
    acted-Paces frame now pause b b' r valid a e =
        let (same, fresh, counted) = paused b' r valid e in
        (same, fresh, inr (1, omega arith, omega arith, counted))

    -- A round that goes on.
    round-Paces :
        (b : WorkBudget) (r : Runtime E)
        → is_config_valid r.config ≡ true
        → Within r.config b
        → let (r1, frame) = poll E others r in
          let (r2, b2, goes_on) = after_poll E others frame b r1 in
          goes_on ≡ true → Paces 1 (r, b) (r2, b2)
    unfolding after_poll
    round-Paces b r valid w e =
        let s = poll-Steady r in
        let (r1, frame) = poll E others r in
        let (w1, now) = E.system_now r1.world in
        let r1' : Runtime E = record r1 { world = w1 } in
        let valid1 : is_config_valid r1.config ≡ true = rw s.config valid in
        let within1 : Within r1.config b = subst (λ c. Within c b) (sym s.config) w in
        let a = after_receive-Answered r1.config frame now b valid1 within1 in
        let (b', action) = after_receive r1.config frame now b in
        let (same, within, counted) = acted-Paces frame now action b b' r1' valid1 a e in
        let (r2, b2, _) = acted E others action b' r1' in
        let p2 : ℕ × ℕ = (r2.diagnostics.work_budget_pauses, b2.receive_calls) in
        (same ∙ s.config, within, subst (λ p. Counts 1 (p, b.receive_calls) p2) s.pauses counted)

  started :
      (r : Runtime E)
      → is_config_valid r.config ≡ true
      → Within r.config (new_budget (E.system_now r.world).1)
  unfolding new_budget
  started r valid =
      let l = is_config_valid-Limits r.config valid in
      record { calls = omega (arith, l.some_frames, l.frames_calls); frames = l.some_frames }

  -- The state of the loops after `n` rounds that go on, with `fuel` rounds left; none when the worker
  -- leaves its loops before.
  unfoldable pub laps :
      (ℕ → Runtime E → Runtime E) → ℕ → ℕ → WorkBudget → Runtime E → Option (Runtime E × WorkBudget)
  laps others zero fuel b r = some (r, b)
  laps others (suc n) fuel b r =
      let (r1, frame) = poll E (others (n + fuel)) r in
      let (r2, b2, goes_on) = after_poll E (others (n + fuel)) frame b r1 in
      let rest = laps others n fuel b2 r2 in
      if r1.stop_requested then none else if goes_on then rest else none

  module _ (others : ℕ → Runtime E → Runtime E)
      (steady : (fuel : ℕ) (r : Runtime E) → Steady r (others fuel r)) where
    -- The next `n` rounds: the worker leaves its loops, or runs on from a state that keeps the pace.
    abbrev pub RunsOn : ℕ → ℕ → WorkBudget → Runtime E → Type 0
    RunsOn n fuel b r =
        ((r' : Runtime E) × (rounds E others (n + fuel) b r ≡ some r'))
        ⊎ ((r' : Runtime E) × (b' : WorkBudget) × (laps others n fuel b r ≡ some (r', b'))
            × (rounds E others (n + fuel) b r ≡ rounds E others fuel b' r')
            × Paces n (r, b) (r', b'))

    rounds-RunsOn :
        (n fuel : ℕ) (b : WorkBudget) (r : Runtime E)
        → is_config_valid r.config ≡ true
        → Within r.config b
        → RunsOn n fuel b r
    unfolding laps
    rounds-RunsOn zero fuel b r valid w = inr (
      r,
      b,
      refl,
      ap (λ m. rounds E others m b r) (omega arith),
      (refl, w, inl (refl, omega arith)),
    )
    rounds-RunsOn (suc n) fuel b r valid w =
        let left = n + fuel in
        let total : rounds E others (suc n + fuel) b r ≡ rounds E others (suc left) b r =
          ap (λ m. rounds E others m b r) (omega arith) in
        let (r1, frame) = poll E (others left) r in
        let (r2, b2, goes_on) = after_poll E (others left) frame b r1 in
        elim (Bool-cases r1.stop_requested) [
          | inl s ↦ inl (r1, total ∙ rounds_stopped E others left b r s)
          | inr s ↦ elim (Bool-cases goes_on) [
            | inr t ↦ inl (r2, total ∙ rounds_over E others left b r s t)
            | inl t ↦
                let on = total ∙ rounds_continue E others left b r s t in
                let (same, within, counted) =
                  round-Paces (others left) (steady left) b r valid w t in
                elim (rounds-RunsOn n fuel b2 r2 (rw same valid) within) [
                  | inl (r', e) ↦ inl (r', on ∙ e)
                  | inr (r', b', l, e, (same', within', counted')) ↦ inr (
                    r',
                    b',
                    simp (s, t, l),
                    on ∙ e,
                    (same' ∙ same, within', Counts-trans n _ _ _ counted counted'),
                  )
                ]
          ]
        ]

    -- The first `before` rounds of a worker, and the `n` rounds after them: it leaves its loops within
    -- these rounds, or it still runs and has paused in the last `n` of them.
    abbrev pub PausesIn : ℕ → ℕ → Runtime E → Type 0
    PausesIn before n r =
        let start = new_budget (E.system_now r.world).1 in
        ((r' : Runtime E) × (run_loop E others (before + n) r ≡ some r'))
        ⊎ ((r1 : Runtime E) × (b1 : WorkBudget) × (r2 : Runtime E) × (b2 : WorkBudget) × (run_loop E
                others (before + n) r
              ≡ none)
            × (laps others before n start (awake E r) ≡ some (r1, b1))
            × (laps others n 0 b1 r1 ≡ some (r2, b2))
            × (k : ℕ) × (0 < k)
            × (k ≤ n)
            × (r2.diagnostics.work_budget_pauses ≡ u64 (r1.diagnostics.work_budget_pauses + k)))

    -- With an accepted configuration, and beside tasks that leave the configuration and the number of
    -- pauses alone: after any number of rounds, each with one call of the source, the worker leaves
    -- its loops within the next `max_runnable_receive_calls` rounds or pauses for its work budget at
    -- least once in them, which the diagnostics count, however these rounds end batches.
    pub run_loop_pauses :
        (before n : ℕ) (r : Runtime E)
        → is_config_valid r.config ≡ true
        → r.config.max_runnable_receive_calls ≤ n
        → PausesIn before n r
    unfolding rounds
    run_loop_pauses before n r valid long =
        let start = new_budget (E.system_now r.world).1 in
        elim (Bool-cases r.stop_requested) [
          | inl s ↦ inl (awake E r, run_loop_skips E others (before + n) r s)
          | inr s ↦
              let enters = run_loop_enters E others (before + n) r s in
              elim (rounds-RunsOn before n start (awake E r) valid (started r valid)) [
                | inl (r', e) ↦ inl (r', enters ∙ e)
                | inr (r1, b1, l1, e1, (same1, within1, _)) ↦
                    let last : rounds E others n b1 r1 ≡ rounds E others (n + 0) b1 r1 =
                      ap (λ m. rounds E others m b1 r1) (omega arith) in
                    let on = enters ∙ e1 ∙ last in
                    elim (rounds-RunsOn n 0 b1 r1 (rw same1 valid) within1) [
                      | inl (r', e) ↦ inl (r', on ∙ e)
                      | inr (r2, b2, l2, e2, (same2, within2, counted)) ↦
                          let limit : r2.config ≡ r.config = same2 ∙ same1 in
                          let few : b2.receive_calls < n =
                            ground (arith, within2.calls, long, limit) in
                          let (k, more, most, pauses) = paused_then n _ _ _ _ counted few in
                          inr (r1, b1, r2, b2, on ∙ e2, l1, l2, k, more, most, pauses)
                    ]
              ]
        ]
