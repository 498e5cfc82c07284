-- ===== src/Telemetry/Runtime/Shutdown.antt =====
-- The destruction of components/vehicle_telemetry/src/runtime.cpp. `others` is what the worker does
-- during one delay.
use esp32_vehicle_can_core.Prelude.{
  ℕ, zero, suc, ◌<◌, ◌≡◌, ◌∙◌, ◌⊎◌, inl, inr, true, false, ◌&&◌, Option, none, some, arith,
  Bool-cases, if◌then◌else◌,
}
use esp32_vehicle_can_core.Telemetry.Types.{ResultCode}
use esp32_vehicle_can_core.Telemetry.Runtime.{
  Surroundings, successful_start, partial_start, Runtime, request_stop,
}
use esp32_vehicle_can_core.Telemetry.Runtime.Cleanup.{
  is_successful, is_partial, source_stopped, partial_stopped, attempt_source_stop,
  attempt_partial_start_cleanup,
}
use esp32_vehicle_can_core.Telemetry.Runtime.Ownership.{Free, RunOwned, PartOwned, Consistent}
use esp32_vehicle_can_core.Telemetry.Runtime.Stopping.{IsWorkerLike}
use esp32_vehicle_can_core.Telemetry.Runtime.Completing.{after_delays, RetiresWithin}

module _ (E : Surroundings) where
  -- The attempt that fits the ownership, its result ignored.
  unfoldable pub attempt_any : Runtime E → Runtime E
  attempt_any r =
      if is_successful r.source_ownership
      then (attempt_source_stop E r).0
      else if is_partial r.source_ownership
      then (attempt_partial_start_cleanup E r).0
      else r

  -- Delays until the worker is inactive; `none` means that it still is active after the fuel.
  unfoldable pub await_worker : (Runtime E → Runtime E) → ℕ → Runtime E → Option (Runtime E)
  await_worker others zero r = if r.worker_active then none else some r
  await_worker others (suc fuel) r =
      let rest = await_worker others fuel (others r) in if r.worker_active then rest else some r

  abbrev last_attempt : Option (Runtime E) → Option (Runtime E)
  last_attempt none = none
  last_attempt (some r) =
      some (if r.source_stop_retry_supported && r.source_started then attempt_any r else r)

  unfoldable pub shutdown : (Runtime E → Runtime E) → ℕ → Runtime E → Option (Runtime E)
  shutdown others fuel r = last_attempt (await_worker others fuel (attempt_any (request_stop E r)))

  module _ (stops : (w : E.World) → (E.source_stop w).1 ≡ ResultCode.ok)
      (retries : (w : E.World) → (E.source_retry_stop w).1 ≡ ResultCode.ok) where
    attempt_any-Free :
        (r : Runtime E)
        → Free r.source ⊎ RunOwned r.source ⊎ PartOwned r.source
        → (r.source_ownership ≡ successful_start
            → r.source_stop_called ≡ true
            → r.source_stop_retry_supported ≡ true)
        → (r.source_ownership ≡ partial_start
            → r.source_stop_retry_supported ≡ false
            → r.partial_cleanup_attempts < 2)
        → Free (attempt_any r).source
          × ((attempt_any r).stop_requested ≡ r.stop_requested)
          × ((attempt_any r).worker_active ≡ r.worker_active)
    unfolding attempt_any attempt_source_stop attempt_partial_start_cleanup source_stopped
        partial_stopped
    attempt_any-Free r o c q =
        let a = stops r.world in let b = retries r.world in ground (arith, a, b)

  settled : (r : Runtime E) → Free r.source → last_attempt (some r) ≡ some r
  settled r f = ground arith

  await_inactive :
      (others : Runtime E → Runtime E) (fuel : ℕ) (r : Runtime E)
      → r.worker_active ≡ false
      → await_worker others fuel r ≡ some r
  unfolding await_worker
  await_inactive others zero r off = simp off
  await_inactive others (suc fuel) r off = simp off

  await_active :
      (others : Runtime E → Runtime E) (fuel : ℕ) (r : Runtime E)
      → r.worker_active ≡ true
      → await_worker others (suc fuel) r ≡ await_worker others fuel (others r)
  unfolding await_worker
  await_active others fuel r on = simp on

  -- The waits of a worker that ends within `n` delays.
  await_retires :
      (others : Runtime E → Runtime E) (n : ℕ) (r : Runtime E)
      → IsWorkerLike E others
      → Free r.source
      → (after_delays E others n r).worker_active ≡ false
      → (r' : Runtime E) × (await_worker others n r ≡ some r')
        × (r'.worker_active ≡ false)
        × Free r'.source
  await_retires others zero r l f off = (r, await_inactive others 0 r off, off, f)
  await_retires others (suc n) r l f off = elim (Bool-cases r.worker_active) [
    | inr idle ↦ (r, await_inactive others (suc n) r idle, idle, f)
    | inl on ↦
        let free : Free (others r).source = rw (l.source r) f in
        let (r', e, idle, f') = await_retires others n (others r) l free off in
        (r', await_active others n r on ∙ e, idle, f')
  ]

  -- The destruction of a consistent runtime ends, as soon as the worker has ended: within the `n`
  -- delays that it takes once it is asked to. Then the runtime owns no source and has no worker, if
  -- the source's stop, and the retry of one, succeeds, and unless a start that failed half-way was
  -- cleaned up in vain twice with a source that does not support a retry.
  pub shutdown_releases :
      (others : Runtime E → Runtime E) (n : ℕ) (r : Runtime E)
      → IsWorkerLike E others
      → RetiresWithin E others n
      → ((w : E.World) → (E.source_stop w).1 ≡ ResultCode.ok)
      → ((w : E.World) → (E.source_retry_stop w).1 ≡ ResultCode.ok)
      → Consistent E r
      → (r.source_ownership ≡ partial_start
          → r.source_stop_retry_supported ≡ false
          → r.partial_cleanup_attempts < 2)
      → (r' : Runtime E) × (shutdown others n r ≡ some r')
        × (r'.worker_active ≡ false)
        × Free r'.source
  unfolding shutdown request_stop
  shutdown_releases others n r l retire stops retries c q =
      let asked = record r { stop_requested = true } in
      let (free, requested, _) = attempt_any-Free stops retries asked c.source c.retried q in
      let next = attempt_any asked in
      let (r', e, idle, f) = await_retires others n next l free (retire next requested) in
      (r', rw e (settled r' f), idle, f)
