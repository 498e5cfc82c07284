-- ===== src/Telemetry/Runtime.antt =====
-- The state of RuntimeImplementation of components/vehicle_telemetry/src/runtime.cpp, and how it
-- reports: the cache of the source's statistics, the silence test and the diagnostics. The code of
-- ESP_PLATFORM is modelled. Each section that a mutex guards is one step.
pub mod Cleanup
pub mod Control
pub mod Ownership
pub mod Starting
pub mod Stopping
pub mod Loop
pub mod Reporting
pub mod Worker
pub mod Completing
pub mod Shutdown
pub mod Looping
pub mod Pausing
use esp32_vehicle_can_core.Prelude.{
  ℕ, ◌+◌, ◌-◌, Bool, true, false, not, ◌&&◌, ◌||◌, leb, if◌then◌else◌, u64,
}
use esp32_vehicle_can_core.VehicleCore.Frame.{RawCanFrame}
use esp32_vehicle_can_core.VehicleCore.Health.{TransportHealth, awaiting_traffic, live, timed_out}
use esp32_vehicle_can_core.Telemetry.Types.{
  ResultCode, LifecycleState, ReceiveStatus, ProcessStatus, AcquisitionStatistics,
  TransportDiagnostics, RuntimeConfig,
}

-- What the runtime is constructed with and what it calls: the source, the processor, the observer,
-- the clock, the system's clock and task creation.
pub record Surroundings : Type 1 where
  pub World : Type 0
  pub supports_stop_retry : World → Bool
  pub source_start : World → World × ResultCode
  pub source_stop : World → World × ResultCode
  pub source_retry_stop : World → World × ResultCode
  pub source_receive : ℕ → World → World × ReceiveStatus × RawCanFrame
  pub source_statistics : World → World × AcquisitionStatistics
  pub processor_reset : World → World
  pub process : RawCanFrame → World → World × ProcessStatus
  pub on_frame_processed : RawCanFrame → ProcessStatus → World → World
  pub on_diagnostics : TransportDiagnostics → World → World
  pub clock_now : World → World × ℕ
  pub system_now : World → World × ℕ
  pub create_task : World → World × Bool
  pub tick_rate_hz : ℕ

pub data SourceOwnership : Type 0 where
  no_owner successful_start partial_start : SourceOwnership

-- The members that say what is known of the source; the number of attempts is a uint8_t.
pub record SourceState : Type 0 where
  pub source_started : Bool
  pub source_ownership : SourceOwnership
  pub source_stop_called : Bool
  pub partial_cleanup_attempts : ℕ
  pub source_stop_result : ResultCode
  pub source_stop_retry_supported : Bool

pub record Runtime (E : Surroundings) : Type 0 where
  pub world : E.World
  pub lifecycle_operation_active : Bool
  pub config : RuntimeConfig
  pub diagnostics : TransportDiagnostics
  pub acquisition_statistics_cache : AcquisitionStatistics
  pub acquisition_statistics_sample_us : ℕ
  pub acquisition_statistics_cache_valid : Bool
  pub lifecycle : LifecycleState
  pub stop_requested : Bool
  pub worker_active : Bool
  pub source : SourceState
  pub open source use *

abbrev pub is_running : LifecycleState → Bool
is_running LifecycleState.running = true
is_running _ = false

-- `TransportDiagnostics{}`
abbrev pub no_statistics : AcquisitionStatistics
no_statistics = record {
  frames_received = 0;
  frames_dropped = 0;
  queue_overflows = 0;
  driver_errors = 0;
  missed_frames = 0;
  controller_resets = 0;
  bus_off_events = 0;
}

abbrev pub no_diagnostics : TransportDiagnostics
no_diagnostics = record {
  lifecycle = LifecycleState.stopped;
  transport = TransportHealth.stopped;
  acquisition = no_statistics;
  frames_processed = 0;
  frames_ignored = 0;
  frames_malformed = 0;
  processor_faults = 0;
  has_last_frame = false;
  last_frame_us = 0;
  work_budget_pauses = 0;
}

-- What the result of a processed frame does to the diagnostics.
unfoldable pub count_result : ProcessStatus → TransportDiagnostics → TransportDiagnostics
count_result ProcessStatus.processed d = record d {
  frames_processed = u64 (d.frames_processed + 1);
}
count_result ProcessStatus.ignored d = record d { frames_ignored = u64 (d.frames_ignored + 1) }
count_result ProcessStatus.malformed d = record d {
  frames_malformed = u64 (d.frames_malformed + 1);
}
count_result ProcessStatus.fault d = record d {
  processor_faults = u64 (d.processor_faults + 1);
  lifecycle = LifecycleState.faulted;
  transport = TransportHealth.faulted;
}

abbrev pub is_fault : ProcessStatus → Bool
is_fault ProcessStatus.fault = true
is_fault _ = false

module _ (E : Surroundings) where
  unfoldable pub refresh_due : ℕ → Runtime E → Bool
  refresh_due now r =
      not r.acquisition_statistics_cache_valid
      || leb r.acquisition_statistics_sample_us now
        && leb 1000000 (now - r.acquisition_statistics_sample_us)

  unfoldable pub refresh_if_due : ℕ → Bool → Runtime E → Runtime E
  refresh_if_due now force r =
      let (w, statistics) = E.source_statistics r.world in
      if not force && not (refresh_due now r) then r else record r {
        world = w;
        acquisition_statistics_cache = statistics;
        acquisition_statistics_sample_us = now;
        acquisition_statistics_cache_valid = true;
      }

  unfoldable pub set_lifecycle_diagnostic : LifecycleState → TransportHealth → Runtime E → Runtime E
  set_lifecycle_diagnostic lifecycle transport r =
      let (w, now) = E.clock_now r.world in
      let r1 = refresh_if_due now true (record r { world = w }) in
      let d = r1.diagnostics in
      record r1 {
        diagnostics = record d {
          lifecycle = lifecycle;
          transport = transport;
          acquisition = r1.acquisition_statistics_cache;
        };
      }

  unfoldable pub reset_cache : Runtime E → Runtime E
  reset_cache r = record r {
    acquisition_statistics_cache_valid = false;
    acquisition_statistics_sample_us = 0;
  }

  -- The subtraction is reached behind the test before it only.
  unfoldable pub update_silence : ℕ → Runtime E → Runtime E
  update_silence now r =
      let d = r.diagnostics in
      if not (is_running r.lifecycle) || not d.has_last_frame
      then r
      else if leb d.last_frame_us now
          && leb r.config.transport_silence_timeout_us (now - d.last_frame_us)
      then record r { diagnostics = record d { transport = timed_out } }
      else r

  -- `snapshot_and_update` after a frame, a timeout, and a fault of the source. The diagnostics that
  -- it returns are those that it leaves.
  unfoldable pub frame_received : ℕ → ProcessStatus → Runtime E → Runtime E
  frame_received receive_time_us status r =
      let r1 = refresh_if_due receive_time_us (is_fault status) r in
      let d = r1.diagnostics in
      record r1 {
        diagnostics = count_result status (record d {
          acquisition = r1.acquisition_statistics_cache;
          transport = live;
          has_last_frame = true;
          last_frame_us = receive_time_us;
        });
      }

  unfoldable pub timed_out_received : Runtime E → Runtime E
  timed_out_received r =
      let (w, now) = E.clock_now r.world in
      let r1 = refresh_if_due now false (record r { world = w }) in
      let d = record (r1.diagnostics) { acquisition = r1.acquisition_statistics_cache } in
      if d.has_last_frame
      then update_silence now (record r1 { diagnostics = d })
      else record r1 { diagnostics = record d { transport = awaiting_traffic } }

  unfoldable pub fault_received : ℕ → Runtime E → Runtime E
  fault_received receive_time_us r =
      let r1 = refresh_if_due receive_time_us true r in
      let d = r1.diagnostics in
      record r1 {
        diagnostics = record d {
          acquisition = r1.acquisition_statistics_cache;
          lifecycle = LifecycleState.faulted;
          transport = TransportHealth.faulted;
        };
      }

  unfoldable pub request_stop : Runtime E → Runtime E
  request_stop r = record r { stop_requested = true }

  unfoldable pub refresh_checkpoint : Runtime E → Runtime E
  refresh_checkpoint r =
      let (w, now) = E.clock_now r.world in update_silence now (record r { world = w })

  -- `diagnostics`, which updates the silence test before it reports.
  unfoldable pub read_diagnostics : Runtime E → Runtime E × TransportDiagnostics
  unfolding refresh_checkpoint
  read_diagnostics r = let r1 = refresh_checkpoint r in (r1, r1.diagnostics)
