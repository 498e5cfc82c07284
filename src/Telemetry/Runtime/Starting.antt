-- ===== src/Telemetry/Runtime/Starting.antt =====
-- What start of components/vehicle_telemetry/src/runtime.cpp leaves on every path.
use esp32_vehicle_can_core.Prelude.{
  ◌≡◌, ◌≢◌, refl, ◌⊎◌, inl, inr, true, false, arith, if◌then◌else◌,
}
use esp32_vehicle_can_core.VehicleCore.Health.{TransportHealth}
use esp32_vehicle_can_core.Telemetry.Types.{
  RuntimeConfig, ResultCode, LifecycleState, is_config_valid,
}
use esp32_vehicle_can_core.Telemetry.Runtime.{
  Surroundings, successful_start, partial_start, Runtime, reset_cache, request_stop,
}
use esp32_vehicle_can_core.Telemetry.Runtime.Cleanup.{
  attempt_source_stop, attempt_partial_start_cleanup,
}
use esp32_vehicle_can_core.Telemetry.Runtime.Control.{
  configure, is_faulted_result, may_own_source, start_refused, start_failed, publish_run, undo_run,
  run_source, start_source, start,
}
use esp32_vehicle_can_core.Telemetry.Runtime.Ownership.{
  Free, RunOwned, PartOwned, Consistent, refresh_if_due-Kept, set_lifecycle_diagnostic-Kept,
  end_cleanup-Ended, attempt_source_stop-AfterStop, attempt_partial-AfterCleanup,
}

module _ (E : Surroundings) where
  -- The ends of a start that reserved the operation.
  abbrev pub Started : Runtime E × ResultCode → Type 0
  Started (r, result) =
      ((result ≡ ResultCode.ok)
        × (r.lifecycle ≡ LifecycleState.running)
        × (r.worker_active ≡ true)
        × (r.stop_requested ≡ false)
        × (r.source_stop_called ≡ false)
        × RunOwned r.source)
      ⊎ ((result ≢ ResultCode.ok)
          × (r.lifecycle ≡ LifecycleState.stopped)
          × (r.worker_active ≡ false)
          × Free r.source)
      ⊎ ((result ≢ ResultCode.ok)
          × (r.lifecycle ≡ LifecycleState.faulted)
          × (r.worker_active ≡ false)
          × (may_own_source result ≡ true)
          × PartOwned r.source)
      ⊎ ((result ≡ ResultCode.faulted)
          × (r.lifecycle ≡ LifecycleState.faulted)
          × (r.worker_active ≡ false)
          × (r.source_stop_retry_supported ≡ true)
          × RunOwned r.source)
      ⊎ ((result ≡ ResultCode.faulted)
          × (r.lifecycle ≡ LifecycleState.faulted)
          × (r.worker_active ≡ false)
          × (r.source_stop_retry_supported ≡ false)
          × Free r.source)

  start_failed-Ended :
      (r : Runtime E)
      → let r' = start_failed E r in
        (((r'.lifecycle ≡ LifecycleState.stopped) × Free r'.source)
          ⊎ ((r'.lifecycle ≡ LifecycleState.faulted) × PartOwned r'.source))
        × (r'.lifecycle_operation_active ≡ false)
        × (r'.worker_active ≡ r.worker_active)
  unfolding start_failed
  start_failed-Ended r =
      let s = r.source in
      let begun = record r {
        source = record s {
          source_started = true;
          source_ownership = partial_start;
          partial_cleanup_attempts = 0;
        };
      } in
      let owned : PartOwned begun.source = record {
        started = refl;
        owned = refl;
        pending = λ le. absurd (omega arith);
      } in
      let a = attempt_partial-AfterCleanup E begun owned in
      let (r1, result) = attempt_partial_start_cleanup E begun in
      ground (arith, a, end_cleanup-Ended E result r1)

  start_refused-Ended :
      (result : ResultCode) (r : Runtime E)
      → r.lifecycle ≡ LifecycleState.stopped
      → Free r.source
      → let r' = start_refused E result r in
        (r'.lifecycle ≡ LifecycleState.stopped)
        × Free r'.source
        × (r'.lifecycle_operation_active ≡ false)
        × (r'.worker_active ≡ r.worker_active)
  unfolding start_refused
  start_refused-Ended result r st f =
      let s = r.source in
      let r1 = record r { source = record s { source_stop_retry_supported = false } } in
      let t =
        if is_faulted_result result then TransportHealth.faulted else TransportHealth.stopped in
      ground (arith, set_lifecycle_diagnostic-Kept E LifecycleState.stopped t r1)

  publish_run_lem :
      (r : Runtime E)
      → let r' = publish_run E r in
        (r'.lifecycle ≡ LifecycleState.running)
        × RunOwned r'.source
        × (r'.source_stop_called ≡ false)
        × (r'.worker_active ≡ true)
        × (r'.stop_requested ≡ false)
  unfolding publish_run
  publish_run_lem r =
      let s = r.source in
      let (w, now) = E.clock_now r.world in
      ground (
        arith,
        refresh_if_due-Kept E now true (record r {
          world = w;
          source = record s {
            source_started = true;
            source_ownership = successful_start;
            source_stop_called = false;
            source_stop_result = ResultCode.ok;
          };
          stop_requested = false;
          worker_active = true;
        }),
      )

  undo_run-Ended :
      (r : Runtime E)
      → RunOwned r.source
      → r.source_stop_called ≡ false
      → let r' = undo_run E r in
        (((r'.lifecycle ≡ LifecycleState.stopped) × Free r'.source)
          ⊎ ((r'.lifecycle ≡ LifecycleState.faulted)
              × (r'.source_stop_retry_supported ≡ true)
              × RunOwned r'.source)
          ⊎ ((r'.lifecycle ≡ LifecycleState.faulted)
              × (r'.source_stop_retry_supported ≡ false)
              × Free r'.source))
        × (r'.lifecycle_operation_active ≡ false)
        × (r'.worker_active ≡ false)
  unfolding undo_run request_stop
  undo_run-Ended r o c =
      let asked = record r { worker_active = false; stop_requested = true } in
      let a = attempt_source_stop-AfterStop E asked o (λ e. absurd cc) in
      let (r1, result) = attempt_source_stop E asked in
      ground (arith, a, end_cleanup-Ended E result r1)

  run_source-Started :
      (r : Runtime E)
      → Started (run_source E r) × ((run_source E r).0.lifecycle_operation_active ≡ false)
  unfolding run_source
  run_source-Started r =
      let a = publish_run_lem r in
      let r1 = publish_run E r in
      let r2 = record r1 { world = (E.create_task r1.world).0 } in
      ground (arith, a, undo_run-Ended r2)

  start_source-Started :
      (r : Runtime E)
      → r.lifecycle ≡ LifecycleState.stopped
      → r.worker_active ≡ false
      → Free r.source
      → Started (start_source E r) × ((start_source E r).0.lifecycle_operation_active ≡ false)
  unfolding start_source reset_cache
  start_source-Started r st off f =
      let w = E.processor_reset r.world in
      let s = r.source in
      let (w', result) = E.source_start w in
      let r2 = record r {
        world = w';
        acquisition_statistics_cache_valid = false;
        acquisition_statistics_sample_us = 0;
        source = record s { source_stop_retry_supported = E.supports_stop_retry w };
      } in
      ground (arith, run_source-Started r2, start_failed-Ended r2, start_refused-Ended result r2)

  pub start-Started :
      (r : Runtime E)
      → Consistent E r
      → is_config_valid r.config ≡ true
      → r.lifecycle ≡ LifecycleState.stopped
      → Started (start E r) × ((start E r).0.lifecycle_operation_active ≡ false)
  unfolding start
  start-Started r c valid st =
      let free = c.stopped st in
      let a =
        start_source-Started (record r { lifecycle_operation_active = true }) st free.1 free.0 in
      ground (arith, a, c.idle)

  Started-Consistent :
      (r : Runtime E × ResultCode)
      → Started r
      → r.0.lifecycle_operation_active ≡ false
      → Consistent E r.0
  Started-Consistent r s idle = record {
    idle = idle;
    source = ground arith;
    stopped = λ st. ground arith;
    no_worker = λ p. ground arith;
    retried = λ o c. ground arith;
  }

  start_refuses :
      (r : Runtime E)
      → Consistent E r
      → ((is_config_valid r.config ≡ true) × (r.lifecycle ≡ LifecycleState.stopped))
        ⊎ ((start E r).0 ≡ r)
  unfolding start
  start_refuses r c = ground (arith, c.idle)

  -- A start leaves a consistent runtime on every path.
  pub start-Consistent : (r : Runtime E) → Consistent E r → Consistent E (start E r).0
  start-Consistent r c = elim (start_refuses r c) [
    | inl (valid, st) ↦
        let (s, idle) = start-Started r c valid st in Started-Consistent (start E r) s idle
    | inr same ↦ rw same c
  ]

  pub configure-Consistent :
      (config : RuntimeConfig) (r : Runtime E)
      → Consistent E r
      → Consistent E (configure E config r).0
  unfolding configure
  configure-Consistent config r c = ground arith
