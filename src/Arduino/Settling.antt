-- ===== src/Arduino/Settling.antt =====
-- What the sketches of examples/arduino may rely on when their stop reports that it is complete.
use mathlib.Core.Path.{subst}
use esp32_vehicle_can_core.Prelude.{
  ◌≡◌, ◌≢◌, ◌⊎◌, inl, inr, Bool, true, false, ◌&&◌, ◌||◌, arith, sym,
}
use esp32_vehicle_can_core.Telemetry.Types.{ResultCode, is_ok, LifecycleState}
use esp32_vehicle_can_core.Telemetry.Source.{is_not_running}
use esp32_vehicle_can_core.Telemetry.Runtime.{
  Surroundings, Runtime, read_diagnostics, refresh_checkpoint, update_silence,
}
use esp32_vehicle_can_core.Telemetry.Runtime.Ownership.{Free, Consistent}
use esp32_vehicle_can_core.Telemetry.Runtime.Control.{is_stopped, stop}
use esp32_vehicle_can_core.Telemetry.Runtime.Stopping.{IsWorkerLike, Stopped, stop-Stopped}
use esp32_vehicle_can_core.Arduino.Control.{stop_checked, stop_runtime}

module _ (E : Surroundings) where
  -- A stop that reports completion: the runtime is stopped, owns nothing and has no worker; one that
  -- does not: the runtime is not stopped. Either way it is consistent.
  abbrev pub Settles : Runtime E × Bool → Type 0
  Settles (r, done) =
      Consistent E r
      × (((done ≡ true)
            × (r.lifecycle ≡ LifecycleState.stopped)
            × Free r.source
            × (r.worker_active ≡ false))
          ⊎ ((done ≡ false) × (r.lifecycle ≢ LifecycleState.stopped)))

  module _ (others : Runtime E → Runtime E) where
    stop_checked_same : (r : Runtime E) → stop_runtime E others r ≡ stop_checked E others r
    unfolding stop_runtime stop_checked
    stop_checked_same r = ground arith

    answered-Settles :
        (r : Runtime E) (result : ResultCode)
        → Consistent E r
        → Stopped E (r, result)
        → Settles (r, (is_ok result || is_not_running result) && is_stopped r.lifecycle)
    answered-Settles r result c (inl (ok, st, off, free)) = (c, inl (ground arith, st, free, off))
    answered-Settles r result c (inr (inl (late, ne))) = (c, inr (ground arith, ne))
    answered-Settles r result c (inr (inr (bad, faulted))) =
        (c, inr (ground arith, λ e. ground arith))

    abbrev Answers : Runtime E × ResultCode → Type 0
    Answers (r, result) =
        Settles (r, (is_ok result || is_not_running result) && is_stopped r.lifecycle)

    stop-Answers :
        (r : Runtime E) → IsWorkerLike E others → Consistent E r → Answers (stop E others false r)
    stop-Answers r l c = elim (stop-Stopped E others r l c).1 [
      | inl (st, e) ↦
          let (free, off) = c.stopped st in
          subst Answers (sym e) (c, inl (ground arith, st, free, off))
      | inr (ne, s, c') ↦
          let (r', result) = stop E others false r in answered-Settles r' result c' s
    ]

    -- From a consistent runtime, and beside a worker that does only what a stop relies on, both
    -- sketches tell truly whether their stop is complete, so that they touch what the runtime borrows
    -- only when it is stopped, owns nothing and has no worker; when their stop is not complete the
    -- runtime is not stopped. Either way it is consistent, so that a stop can be tried again.
    pub stop_checked-Settles :
        (r : Runtime E)
        → IsWorkerLike E others
        → Consistent E r
        → Settles (stop_checked E others r) × (stop_runtime E others r ≡ stop_checked E others r)
    unfolding stop_checked
    stop_checked-Settles r l c = (stop-Answers r l c, stop_checked_same r)

  pub read_diagnostics-Consistent :
      (r : Runtime E) → Consistent E r → Consistent E (read_diagnostics E r).0
  unfolding read_diagnostics refresh_checkpoint update_silence
  read_diagnostics-Consistent r c = ground arith
