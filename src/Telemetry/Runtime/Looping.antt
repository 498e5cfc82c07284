-- ===== src/Telemetry/Runtime/Looping.antt =====
-- The loops of run_loop of components/vehicle_telemetry/src/runtime.cpp: what their rounds keep, and
-- what therefore holds when the worker leaves them.
use esp32_vehicle_can_core.Prelude.{
  ℕ, zero, suc, ◌≡◌, ◌⊎◌, inl, inr, Bool, true, false, some, Bool-cases, if_elim, sym, ◌∙◌,
}
use esp32_vehicle_can_core.Telemetry.Budget.{BudgetAction, go_on, checkpoint, pause, WorkBudget}
use esp32_vehicle_can_core.Telemetry.Runtime.{Surroundings, Runtime, refresh_checkpoint}
use esp32_vehicle_can_core.Telemetry.Runtime.Loop.{
  poll, delays, budget_pause, resumed, acted, after_poll, rounds, run_loop,
}
use mathlib.Core.Path.{subst}
use esp32_vehicle_can_core.Telemetry.Runtime.Reporting.{
  polled, acted_on, awake, rounds_stopped, rounds_over, rounds_continue, run_loop_skips,
  run_loop_enters,
}

module _ (E : Surroundings) (others : ℕ → Runtime E → Runtime E) (I : Runtime E → Type 0)
    (J : Runtime E → Type 0) where
  -- `I` holds between rounds, and `J` after a receive during which a stop was requested.
  pub record IsLoopInvariant : Type 0 where
    pub timed : (r : Runtime E) → I r → I (record r { world = (E.system_now r.world).0 })
    pub refreshed : (r : Runtime E) → I r → I (refresh_checkpoint E r)
    pub counted :
        (r : Runtime E) (n : ℕ)
        → I r
        → let d = r.diagnostics in
          I (record r { diagnostics = record d { work_budget_pauses = n } })
    pub beside : (fuel : ℕ) (r : Runtime E) → I r → I (others fuel r)
    pub polled :
        (fuel : ℕ) (r : Runtime E)
        → I r
        → let r' = (poll E (others fuel) r).0 in
          (r'.stop_requested ≡ true → J r') × (r'.stop_requested ≡ false → I r')

  module _ (keep : IsLoopInvariant) where
    delays_keep : (fuel ticks : ℕ) (r : Runtime E) → I r → I (delays E (others fuel) ticks r).0
    unfolding delays
    delays_keep fuel zero r h = h
    delays_keep fuel (suc ticks) r h =
        if_elim (λ (p : Runtime E × Bool). I p.0) r.stop_requested h
          (delays_keep fuel ticks (others fuel r) (keep.beside fuel r h))

    budget_pause_keep : (fuel : ℕ) (r : Runtime E) → I r → I (budget_pause E (others fuel) r).0
    unfolding budget_pause
    budget_pause_keep fuel r h =
        if_elim (λ (p : Runtime E × Bool). I p.0) r.stop_requested h
          (delays_keep fuel _ _ (keep.counted r _ h))

    resumed_keep :
        (budget : WorkBudget) (r : Runtime E) (b : Bool) → I r → I (resumed E budget (r, b)).0
    resumed_keep budget r true h = keep.timed r h
    resumed_keep budget r false h = h

    acted_keep :
        (fuel : ℕ) (action : BudgetAction) (budget : WorkBudget) (r : Runtime E)
        → I r
        → I (acted E (others fuel) action budget r).0
    acted_keep fuel go_on budget r h = h
    acted_keep fuel checkpoint budget r h = keep.refreshed r h
    acted_keep fuel pause budget r h =
        let (r1, b) = budget_pause E (others fuel) (refresh_checkpoint E r) in
        resumed_keep budget r1 b (budget_pause_keep fuel _ (keep.refreshed r h))

    after_poll_keep :
        (fuel : ℕ) (frame : Bool) (budget : WorkBudget) (r : Runtime E)
        → I r
        → I (after_poll E (others fuel) frame budget r).0
    unfolding after_poll
    after_poll_keep fuel frame budget r h = acted_keep fuel _ _ _ (keep.timed r h)

    rounds_keep :
        (fuel : ℕ) (budget : WorkBudget) (r : Runtime E) {r' : Runtime E}
        → I r
        → rounds E others fuel budget r ≡ some r'
        → I r' ⊎ J r'
    unfolding rounds
    rounds_keep zero budget r h e = absurd cc
    rounds_keep (suc fuel) budget r {r'} h e =
        let (ended, goes) = keep.polled fuel r h in
        elim (Bool-cases (polled E others fuel budget r).0.stop_requested) [
          | inl s ↦
              let same : (polled E others fuel budget r).0 ≡ r' =
                cc (rounds_stopped E others fuel budget r s) in
              inr (subst J same (ended s))
          | inr s ↦
              let kept = after_poll_keep fuel (polled E others fuel budget r).1 budget _ (goes s) in
              elim (Bool-cases (acted_on E others fuel budget r).2) [
                | inl t ↦
                    rounds_keep fuel _ _ kept (sym (rounds_continue E others fuel budget r s t) ∙ e)
                | inr t ↦
                    let same : (acted_on E others fuel budget r).0 ≡ r' =
                      cc (rounds_over E others fuel budget r s t) in
                    inl (subst I same kept)
              ]
        ]

    -- What holds when the worker leaves its loops.
    pub run_loop_keep :
        (fuel : ℕ) (r : Runtime E) {r' : Runtime E}
        → I r
        → run_loop E others fuel r ≡ some r'
        → I r' ⊎ J r'
    run_loop_keep fuel r {r'} h e = elim (Bool-cases r.stop_requested) [
      | inl s ↦
          let same : awake E r ≡ r' = cc (run_loop_skips E others fuel r s) in
          inl (subst I same (keep.timed r h))
      | inr s ↦ rounds_keep fuel _ _ (keep.timed r h) (sym (run_loop_enters E others fuel r s) ∙ e)
    ]
