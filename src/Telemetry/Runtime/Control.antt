-- ===== src/Telemetry/Runtime/Control.antt =====
-- configure, start, stop and destruction of components/vehicle_telemetry/src/runtime.cpp. `others`
-- is what the worker does during one delay of a call that waits for it.
use esp32_vehicle_can_core.Prelude.{ℕ, zero, suc, Bool, true, false, not, ◌&&◌, ◌||◌, if◌then◌else◌}
use esp32_vehicle_can_core.VehicleCore.Health.{TransportHealth}
use esp32_vehicle_can_core.Telemetry.Types.{
  ResultCode, is_ok, LifecycleState, RuntimeConfig, is_config_valid,
}
use esp32_vehicle_can_core.Telemetry.Runtime.{
  Surroundings, successful_start, partial_start, Runtime, no_diagnostics, refresh_if_due,
  set_lifecycle_diagnostic, reset_cache, request_stop,
}
use esp32_vehicle_can_core.Telemetry.Runtime.Cleanup.{
  is_partial, attempt_source_stop, attempt_partial_start_cleanup,
}

abbrev pub is_stopped : LifecycleState → Bool
is_stopped LifecycleState.stopped = true
is_stopped _ = false

unfoldable pub lifecycle_result : LifecycleState → ResultCode
lifecycle_result LifecycleState.running = ResultCode.already_running
lifecycle_result LifecycleState.stopping = ResultCode.stopping
lifecycle_result LifecycleState.faulted = ResultCode.faulted
lifecycle_result LifecycleState.stopped = ResultCode.ok

abbrev pub may_own_source : ResultCode → Bool
may_own_source ResultCode.already_running = false
may_own_source ResultCode.invalid_configuration = false
may_own_source _ = true

abbrev pub is_unfinished : ResultCode → Bool
is_unfinished ResultCode.timeout = true
is_unfinished ResultCode.stopping = true
is_unfinished _ = false

abbrev pub is_faulted_result : ResultCode → Bool
is_faulted_result ResultCode.faulted = true
is_faulted_result _ = false

module _ (E : Surroundings) where
  unfoldable pub configure : RuntimeConfig → Runtime E → Runtime E × ResultCode
  configure config r =
      if not (is_config_valid config)
      then (r, ResultCode.invalid_configuration)
      else if r.lifecycle_operation_active || not (is_stopped r.lifecycle)
      then (r, ResultCode.invalid_state)
      else (record r { config = config }, ResultCode.ok)

  -- The lifecycle and the diagnostics after a cleanup, as its result tells.
  unfoldable pub end_cleanup : ResultCode → Runtime E → Runtime E
  end_cleanup result r =
      let clean = record r { lifecycle = LifecycleState.stopped } in
      let failed = record r { lifecycle = LifecycleState.faulted } in
      let r1 =
        if is_ok result
        then reset_cache E
            (set_lifecycle_diagnostic E LifecycleState.stopped TransportHealth.stopped clean)
        else set_lifecycle_diagnostic E LifecycleState.faulted TransportHealth.faulted failed in
      record r1 { lifecycle_operation_active = false }

  -- A start that the source refused without having acquired anything.
  unfoldable pub start_refused : ResultCode → Runtime E → Runtime E
  start_refused result r =
      let s = r.source in
      let r1 = record r { source = record s { source_stop_retry_supported = false } } in
      let r2 =
        set_lifecycle_diagnostic E LifecycleState.stopped
          (if is_faulted_result result then TransportHealth.faulted else TransportHealth.stopped)
          r1 in
      record r2 { lifecycle_operation_active = false }

  -- A start that may have acquired a part of the source.
  unfoldable pub start_failed : Runtime E → Runtime E
  start_failed r =
      let s = r.source in
      let (r1, result) = attempt_partial_start_cleanup E (record r {
        source = record s {
          source_started = true;
          source_ownership = partial_start;
          partial_cleanup_attempts = 0;
        };
      }) in
      end_cleanup result r1

  -- The source has started: publish the run.
  unfoldable pub publish_run : Runtime E → Runtime E
  publish_run r =
      let s = r.source in
      let (w, now) = E.clock_now r.world in
      let r1 = refresh_if_due E now true (record r {
        world = w;
        source = record s {
          source_started = true;
          source_ownership = successful_start;
          source_stop_called = false;
          source_stop_result = ResultCode.ok;
        };
        stop_requested = false;
        worker_active = true;
      }) in
      record r1 {
        diagnostics = record no_diagnostics {
          lifecycle = LifecycleState.running;
          transport = TransportHealth.awaiting_traffic;
          acquisition = r1.acquisition_statistics_cache;
        };
        lifecycle = LifecycleState.running;
      }

  -- The worker could not be created.
  unfoldable pub undo_run : Runtime E → Runtime E
  undo_run r =
      let (r1, result) =
        attempt_source_stop E (request_stop E (record r { worker_active = false })) in
      end_cleanup result r1

  unfoldable pub run_source : Runtime E → Runtime E × ResultCode
  run_source r =
      let r1 = publish_run r in
      let (w, created) = E.create_task r1.world in
      let r2 = record r1 { world = w } in
      if created
      then (record r2 { lifecycle_operation_active = false }, ResultCode.ok)
      else (undo_run r2, ResultCode.faulted)

  -- What a start does once it has reserved the operation.
  unfoldable pub start_source : Runtime E → Runtime E × ResultCode
  start_source r =
      let r1 = reset_cache E r in
      let w = E.processor_reset r1.world in
      let s = r1.source in
      let (w', result) = E.source_start w in
      let r2 = record r1 {
        world = w';
        source = record s { source_stop_retry_supported = E.supports_stop_retry w };
      } in
      if is_ok result
      then run_source r2
      else (if may_own_source result then start_failed r2 else start_refused result r2, result)

  unfoldable pub start : Runtime E → Runtime E × ResultCode
  start r =
      if not (is_config_valid r.config)
      then (r, ResultCode.invalid_configuration)
      else if r.lifecycle_operation_active
      then (r, ResultCode.stopping)
      else if is_stopped r.lifecycle
      then start_source (record r { lifecycle_operation_active = true })
      else (r, lifecycle_result r.lifecycle)

  -- The lifecycle and the diagnostics with which a stop begins.
  unfoldable pub begin_stopping : Runtime E → Runtime E
  begin_stopping r =
      set_lifecycle_diagnostic E LifecycleState.stopping TransportHealth.stopped
        (record r { lifecycle_operation_active = true; lifecycle = LifecycleState.stopping })

  unfoldable pub stop_partial : Runtime E → Runtime E × ResultCode
  stop_partial r =
      let (r1, result) = attempt_partial_start_cleanup E (begin_stopping r) in
      (
        end_cleanup result r1,
        if is_ok result
            then ResultCode.ok
            else if is_unfinished result
            then ResultCode.timeout
            else ResultCode.faulted,
      )

  -- At most `ticks` delays, while the worker is active.
  unfoldable pub wait_worker : (Runtime E → Runtime E) → ℕ → Runtime E → Runtime E
  wait_worker others zero r = r
  wait_worker others (suc ticks) r =
      let waited = wait_worker others ticks (others r) in if r.worker_active then waited else r

  -- After the source's answer to a stop of a run.
  unfoldable pub finish_stop :
      (Runtime E → Runtime E) → ResultCode → Runtime E → Runtime E × ResultCode
  finish_stop others result r =
      let r1 = wait_worker others 1000 r in
      if is_unfinished result
      then (record r { lifecycle_operation_active = false }, ResultCode.timeout)
      else if r1.worker_active
      then (record r1 { lifecycle_operation_active = false }, ResultCode.timeout)
      else (
        reset_cache E (end_cleanup result r1),
        if is_ok result then ResultCode.ok else ResultCode.faulted,
      )

  unfoldable pub stop_run : (Runtime E → Runtime E) → Runtime E → Runtime E × ResultCode
  stop_run others r =
      let (r1, result) = attempt_source_stop E (request_stop E (begin_stopping r)) in
      finish_stop others result r1

  -- `from_worker` is the test whether the worker itself calls.
  unfoldable pub stop : (Runtime E → Runtime E) → Bool → Runtime E → Runtime E × ResultCode
  stop others from_worker r =
      if from_worker
      then (r, ResultCode.invalid_state)
      else if r.lifecycle_operation_active
      then (r, ResultCode.stopping)
      else if is_stopped r.lifecycle && not r.source_started
      then (r, ResultCode.not_running)
      else if is_partial r.source_ownership
      then stop_partial r
      else stop_run others r
