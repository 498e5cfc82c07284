-- ===== src/Telemetry/Runtime/Stopping.antt =====
-- What stop of components/vehicle_telemetry/src/runtime.cpp leaves on every path.
use esp32_vehicle_can_core.Prelude.{
  ◌∙◌, ℕ, zero, suc, ◌≡◌, ◌≢◌, refl, ◌⊎◌, inl, inr, true, false, arith,
}
use esp32_vehicle_can_core.VehicleCore.Health.{TransportHealth}
use esp32_vehicle_can_core.Telemetry.Types.{ResultCode, LifecycleState}
use esp32_vehicle_can_core.Telemetry.Runtime.{
  Surroundings, successful_start, partial_start, Runtime, reset_cache, request_stop,
}
use esp32_vehicle_can_core.Telemetry.Runtime.Cleanup.{
  attempt_source_stop, attempt_partial_start_cleanup,
}
use esp32_vehicle_can_core.Telemetry.Runtime.Control.{
  begin_stopping, stop_partial, wait_worker, finish_stop, stop_run, stop,
}
use esp32_vehicle_can_core.Telemetry.Runtime.Ownership.{
  Free, RunOwned, PartOwned, Consistent, set_lifecycle_diagnostic-Kept, end_cleanup-Ended,
  attempt_source_stop_lem, attempt_partial-AfterCleanup,
}

module _ (E : Surroundings) where
  -- What the worker may do while a stop waits for it: it leaves the source, the configuration and
  -- the operation alone, it may latch a fault, and it does not become active again.
  pub record IsWorkerLike (others : Runtime E → Runtime E) : Type 0 where
    pub source : (r : Runtime E) → (others r).source ≡ r.source
    pub operation :
        (r : Runtime E) → (others r).lifecycle_operation_active ≡ r.lifecycle_operation_active
    pub fault :
        (r : Runtime E)
        → ((others r).lifecycle ≡ r.lifecycle) ⊎ ((others r).lifecycle ≡ LifecycleState.faulted)
    pub inactive : (r : Runtime E) → r.worker_active ≡ false → (others r).worker_active ≡ false

  wait_worker_keeps :
      (others : Runtime E → Runtime E) (n : ℕ) (r : Runtime E)
      → IsWorkerLike others
      → let r' = wait_worker E others n r in
        (r'.source ≡ r.source)
        × (r'.lifecycle_operation_active ≡ r.lifecycle_operation_active)
        × ((r'.lifecycle ≡ r.lifecycle) ⊎ (r'.lifecycle ≡ LifecycleState.faulted))
        × (r.worker_active ≡ false → r'.worker_active ≡ false)
  unfolding wait_worker
  wait_worker_keeps others zero r l = (refl, refl, inl refl, λ e. e)
  wait_worker_keeps others (suc n) r l =
      let rest = wait_worker_keeps others n (others r) l in
      let here = l.source r in
      let op = l.operation r in
      let fault = l.fault r in let off = l.inactive r in ground (arith, rest, here, op, fault, off)

  -- The ends of a stop that was accepted.
  abbrev pub Stopped : Runtime E × ResultCode → Type 0
  Stopped (r, result) =
      ((result ≡ ResultCode.ok)
        × (r.lifecycle ≡ LifecycleState.stopped)
        × (r.worker_active ≡ false)
        × Free r.source)
      ⊎ ((result ≡ ResultCode.timeout) × (r.lifecycle ≢ LifecycleState.stopped))
      ⊎ ((result ≡ ResultCode.faulted) × (r.lifecycle ≡ LifecycleState.faulted))

  abbrev Owners : Runtime E → Type 0
  Owners r =
      (Free r.source ⊎ RunOwned r.source ⊎ PartOwned r.source)
      × (r.source_ownership ≡ successful_start
          → r.source_stop_called ≡ true
          → r.source_stop_retry_supported ≡ true)
      × (r.lifecycle_operation_active ≡ false)

  pub begin_stopping_lem :
      (r : Runtime E)
      → let r' = begin_stopping E r in
        (r'.source ≡ r.source)
        × (r'.lifecycle ≡ LifecycleState.stopping)
        × (r'.worker_active ≡ r.worker_active)
  unfolding begin_stopping
  begin_stopping_lem r = ground (
    arith,
    set_lifecycle_diagnostic-Kept E LifecycleState.stopping TransportHealth.stopped
        (record r { lifecycle_operation_active = true; lifecycle = LifecycleState.stopping }),
  )

  stop_partial-Stopped :
      (r : Runtime E)
      → PartOwned r.source
      → r.worker_active ≡ false
      → Stopped (stop_partial E r)
        × Owners (stop_partial E r).0
        × ((stop_partial E r).0.worker_active ≡ false)
  unfolding stop_partial
  stop_partial-Stopped r o off =
      let b = begin_stopping_lem r in
      let r1 = begin_stopping E r in
      let a = attempt_partial-AfterCleanup E r1 (rw (b.0) o) in
      let (r2, result) = attempt_partial_start_cleanup E r1 in
      ground (arith, b, a, end_cleanup-Ended E result r2)

  finish_stop-Stopped :
      (others : Runtime E → Runtime E) (result : ResultCode) (r : Runtime E)
      → IsWorkerLike others
      → r.lifecycle ≡ LifecycleState.stopping
      → (result ≡ ResultCode.ok → Free r.source)
      → Stopped (finish_stop E others result r)
        × ((finish_stop E others result r).0.source ≡ r.source)
        × ((finish_stop E others result r).0.lifecycle_operation_active ≡ false)
  unfolding finish_stop reset_cache
  finish_stop-Stopped others result r l st f =
      let r1 = wait_worker E others 1000 r in
      let w = wait_worker_keeps others 1000 r l in ground (arith, w, end_cleanup-Ended E result r1)

  stop_run-Stopped :
      (others : Runtime E → Runtime E) (r : Runtime E)
      → IsWorkerLike others
      → Free r.source ⊎ RunOwned r.source
      → (r.source_ownership ≡ successful_start
          → r.source_stop_called ≡ true
          → r.source_stop_retry_supported ≡ true)
      → Stopped (stop_run E others r)
        × Owners (stop_run E others r).0
        × ((stop_run E others r).0.source_ownership ≢ partial_start)
  unfolding stop_run request_stop
  stop_run-Stopped others r l o c =
      let b = begin_stopping_lem r in
      let asked = record (begin_stopping E r) { stop_requested = true } in
      let a = attempt_source_stop_lem E asked (rw (b.0) o) (rw (b.0) c) in
      let (r1, result) = attempt_source_stop E asked in
      let e = finish_stop-Stopped others result r1 l in ground (arith, b, a, e)

  Stopped-Consistent :
      (r : Runtime E × ResultCode)
      → Stopped r
      → Owners r.0
      → (r.0.source_ownership ≡ partial_start → r.0.worker_active ≡ false)
      → Consistent E r.0
  Stopped-Consistent r s o off = record {
    idle = o.2;
    source = o.0;
    stopped = λ st. ground arith;
    no_worker = off;
    retried = o.1;
  }

  pub stop_cases :
      (others : Runtime E → Runtime E) (r : Runtime E)
      → Consistent E r
      → ((r.lifecycle ≡ LifecycleState.stopped)
          × (stop E others false r ≡ (r, ResultCode.not_running)))
        ⊎ ((r.lifecycle ≢ LifecycleState.stopped)
            × PartOwned r.source
            × (stop E others false r ≡ stop_partial E r))
        ⊎ ((r.lifecycle ≢ LifecycleState.stopped)
            × (Free r.source ⊎ RunOwned r.source)
            × (stop E others false r ≡ stop_run E others r))
  unfolding stop
  stop_cases others r c = let s = c.stopped in let o = c.source in ground (arith, c.idle, s, o)

  pub stop-Stopped :
      (others : Runtime E → Runtime E) (r : Runtime E)
      → IsWorkerLike others
      → Consistent E r
      → (stop E others true r ≡ (r, ResultCode.invalid_state))
        × (((r.lifecycle ≡ LifecycleState.stopped)
              × (stop E others false r ≡ (r, ResultCode.not_running)))
            ⊎ ((r.lifecycle ≢ LifecycleState.stopped)
                × Stopped (stop E others false r)
                × Consistent E (stop E others false r).0))
  stop-Stopped others r l c = (
    unfold stop in refl,
    elim (stop_cases others r c) [
      | inl (st, e) ↦ inl (st, e)
      | inr (inl (ne, o, e)) ↦
          let (s, owners, off) = stop_partial-Stopped r o (c.no_worker o.owned) in
          rw e (inr (ne, s, Stopped-Consistent (stop_partial E r) s owners (λ p. off)))
      | inr (inr (ne, o, e)) ↦
          let (s, owners, whole) = stop_run-Stopped others r l o c.retried in
          rw e
            (inr (ne, s, Stopped-Consistent (stop_run E others r) s owners (λ p. absurd (whole p))))
    ],
  )

  -- What the worker does keeps the runtime consistent.
  pub worker-Consistent :
      (others : Runtime E → Runtime E) (r : Runtime E)
      → IsWorkerLike others
      → Consistent E r
      → Consistent E (others r)
  worker-Consistent others r l c =
      let s = l.source r in
      let o = l.operation r in
      let f = l.fault r in
      let i = l.inactive r in
      record {
        idle = o ∙ c.idle;
        source = rw s c.source;
        stopped = λ st. let kept = c.stopped (ground (arith, f)) in ground (arith, s, i, kept);
        no_worker = λ p. ground (arith, s, i, c.no_worker);
        retried = λ p q. ground (arith, s, c.retried);
      }
