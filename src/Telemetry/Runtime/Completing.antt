-- ===== src/Telemetry/Runtime/Completing.antt =====
-- That stop of components/vehicle_telemetry/src/runtime.cpp succeeds.
use esp32_vehicle_can_core.Prelude.{
  ℕ, zero, suc, ◌≤◌, ◌≡◌, ◌≢◌, refl, inl, inr, true, false, arith, Bool-cases,
}
use esp32_vehicle_can_core.Telemetry.Types.{ResultCode, LifecycleState}
use esp32_vehicle_can_core.Telemetry.Runtime.{Surroundings, successful_start, Runtime, request_stop}
use esp32_vehicle_can_core.Telemetry.Runtime.Cleanup.{source_stopped, attempt_source_stop}
use esp32_vehicle_can_core.Telemetry.Runtime.Control.{
  begin_stopping, wait_worker, finish_stop, stop_run, stop,
}
use esp32_vehicle_can_core.Telemetry.Runtime.Ownership.{
  RunOwned, Consistent, attempt_source_stop_lem,
}
use esp32_vehicle_can_core.Telemetry.Runtime.Stopping.{begin_stopping_lem, stop_cases}
use esp32_vehicle_can_core.Telemetry.Runtime.Worker.{worker_step}

module _ (E : Surroundings) where
  wait_inactive :
      (others : Runtime E → Runtime E) (n : ℕ) (r : Runtime E)
      → r.worker_active ≡ false
      → wait_worker E others n r ≡ r
  unfolding wait_worker
  wait_inactive others zero r off = refl
  wait_inactive others (suc n) r off = simp off

  wait_once :
      (others : Runtime E → Runtime E) (n : ℕ) (r : Runtime E)
      → r.worker_active ≡ true
      → wait_worker E others (suc n) r ≡ wait_worker E others n (others r)
  unfolding wait_worker
  wait_once others n r on = simp on

  pub retires : (r : Runtime E) → r.stop_requested ≡ true → (worker_step E r).worker_active ≡ false
  retires r asked = ground arith

  pub wait_ends :
      (n : ℕ) (r : Runtime E)
      → r.stop_requested ≡ true
      → (wait_worker E (worker_step E) (suc n) r).worker_active ≡ false
  wait_ends n r asked = elim (Bool-cases r.worker_active) [
    | inr off ↦ rw (wait_inactive (worker_step E) (suc n) r off) off
    | inl on ↦
        let off = retires r asked in
        rw (wait_once (worker_step E) n r on, wait_inactive (worker_step E) n (worker_step E r) off)
          off
  ]

  attempt_succeeds :
      (r : Runtime E)
      → RunOwned r.source
      → (r.source_ownership ≡ successful_start
          → r.source_stop_called ≡ true
          → r.source_stop_retry_supported ≡ true)
      → ((w : E.World) → (E.source_stop w).1 ≡ ResultCode.ok)
      → ((w : E.World) → (E.source_retry_stop w).1 ≡ ResultCode.ok)
      → (attempt_source_stop E r).1 ≡ ResultCode.ok
  unfolding attempt_source_stop source_stopped
  attempt_succeeds r o c stops retries =
      let a = stops r.world in
      let b = retries r.world in let called = c o.owned in ground (arith, a, b, called)

  -- What the worker has done after that many delays.
  abbrev pub after_delays : (Runtime E → Runtime E) → ℕ → Runtime E → Runtime E
  after_delays others zero r = r
  after_delays others (suc n) r = after_delays others n (others r)

  -- Once it is asked to stop, the worker is back from its receive and its callbacks, and ended, within
  -- that many delays.
  abbrev pub RetiresWithin : (Runtime E → Runtime E) → ℕ → Type 0
  RetiresWithin others n =
      (r : Runtime E) → r.stop_requested ≡ true → (after_delays others n r).worker_active ≡ false

  wait_retires :
      (others : Runtime E → Runtime E) (n m : ℕ) (r : Runtime E)
      → (after_delays others n r).worker_active ≡ false
      → n ≤ m
      → (wait_worker E others m r).worker_active ≡ false
  wait_retires others zero m r off le = rw (wait_inactive others m r off) off
  wait_retires others (suc n) zero r off le = absurd (omega arith)
  wait_retires others (suc n) (suc m) r off le = elim (Bool-cases r.worker_active) [
    | inr idle ↦ rw (wait_inactive others (suc m) r idle) idle
    | inl on ↦ rw (wait_once others m r on) (wait_retires others n m (others r) off (omega arith))
  ]

  finish_answers :
      (others : Runtime E → Runtime E) (r : Runtime E)
      → (wait_worker E others 1000 r).worker_active ≡ false
      → (finish_stop E others ResultCode.ok r).1 ≡ ResultCode.ok
  unfolding finish_stop
  finish_answers others r off = simp off

  run_completes :
      (others : Runtime E → Runtime E) (n : ℕ) (r : Runtime E)
      → RetiresWithin others n
      → n ≤ 1000
      → RunOwned r.source
      → (r.source_ownership ≡ successful_start
          → r.source_stop_called ≡ true
          → r.source_stop_retry_supported ≡ true)
      → ((w : E.World) → (E.source_stop w).1 ≡ ResultCode.ok)
      → ((w : E.World) → (E.source_retry_stop w).1 ≡ ResultCode.ok)
      → (stop_run E others r).1 ≡ ResultCode.ok
  unfolding stop_run request_stop
  run_completes others n r retire le o c stops retries =
      let b = begin_stopping_lem E r in
      let asked = record (begin_stopping E r) { stop_requested = true } in
      let owned : RunOwned asked.source = rw (b.0) o in
      let called : asked.source_ownership ≡ successful_start
          → asked.source_stop_called ≡ true
          → asked.source_stop_retry_supported ≡ true =
        rw (b.0) c in
      let done = attempt_succeeds asked owned called stops retries in
      let kept = (attempt_source_stop_lem E asked (inr owned) called).0 in
      let stopping = (attempt_source_stop E asked).0 in
      let off = wait_retires others n 1000 stopping (retire stopping kept.2) le in
      rw done (finish_answers others stopping off)

  -- A stop of a consistent runtime that owns a run and is not stopped succeeds, if the source's stop,
  -- and the retry of one, succeeds, and if the worker, once asked, ends within the 1000 delays that
  -- the stop waits for it. How long the worker's receive and its callbacks take is not the stop's to
  -- bound.
  pub stop_completes :
      (others : Runtime E → Runtime E) (n : ℕ) (r : Runtime E)
      → RetiresWithin others n
      → n ≤ 1000
      → Consistent E r
      → RunOwned r.source
      → r.lifecycle ≢ LifecycleState.stopped
      → ((w : E.World) → (E.source_stop w).1 ≡ ResultCode.ok)
      → ((w : E.World) → (E.source_retry_stop w).1 ≡ ResultCode.ok)
      → (stop E others false r).1 ≡ ResultCode.ok
  stop_completes others n r retire le c o ne stops retries = elim (stop_cases E others r c) [
    | inl (st, _) ↦ absurd (ne st)
    | inr (inl (_, part, _)) ↦ let clash = part.owned in let owned = o.owned in absurd cc
    | inr (inr (_, _, e)) ↦ rw e (run_completes others n r retire le o c.retried stops retries)
  ]
