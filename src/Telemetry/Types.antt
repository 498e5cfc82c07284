-- ===== src/Telemetry/Types.antt =====
-- The types of components/vehicle_telemetry/include/vehicle_telemetry: lifecycle.hpp, receive.hpp,
-- observer.hpp and runtime.hpp, with the configuration test of src/runtime.cpp.
use esp32_vehicle_can_core.Prelude.{ℕ, Bool, not, ◌&&◌, ◌==◌, leb}
use esp32_vehicle_can_core.VehicleCore.Health.{TransportHealth}

-- ResultCode; a StatusResult holds nothing else.
pub data ResultCode : Type 0 where
  ok invalid_configuration invalid_state already_running not_running stopping timeout : ResultCode
  faulted capacity_exceeded : ResultCode

abbrev pub is_ok : ResultCode → Bool
is_ok ok = Bool.true
is_ok _ = Bool.false

pub data LifecycleState : Type 0 where
  stopped running stopping faulted : LifecycleState

pub data ReceiveStatus : Type 0 where
  frame timeout fault not_started : ReceiveStatus

pub data ProcessStatus : Type 0 where
  ignored processed malformed fault : ProcessStatus

-- uint64_t each.
pub record AcquisitionStatistics : Type 0 where
  pub frames_received : ℕ
  pub frames_dropped : ℕ
  pub queue_overflows : ℕ
  pub driver_errors : ℕ
  pub missed_frames : ℕ
  pub controller_resets : ℕ
  pub bus_off_events : ℕ

pub record TransportDiagnostics : Type 0 where
  pub lifecycle : LifecycleState
  pub transport : TransportHealth
  pub acquisition : AcquisitionStatistics
  pub frames_processed : ℕ
  pub frames_ignored : ℕ
  pub frames_malformed : ℕ
  pub processor_faults : ℕ
  pub has_last_frame : Bool
  pub last_frame_us : ℕ
  pub work_budget_pauses : ℕ

pub record RuntimeConfig : Type 0 where
  pub receive_timeout_ms : ℕ
  pub transport_silence_timeout_us : ℕ
  pub max_frames_per_batch : ℕ
  pub max_batch_time_us : ℕ
  pub max_runnable_receive_calls : ℕ
  pub max_runnable_time_us : ℕ
  pub budget_pause_ms : ℕ

unfoldable pub is_config_valid : RuntimeConfig → Bool
is_config_valid c =
    not (c.receive_timeout_ms == 0)
    && leb c.receive_timeout_ms 60000
    && not (c.transport_silence_timeout_us == 0)
    && leb c.transport_silence_timeout_us 300000000
    && not (c.max_frames_per_batch == 0)
    && leb c.max_runnable_receive_calls 65535
    && leb c.max_frames_per_batch c.max_runnable_receive_calls
    && not (c.max_batch_time_us == 0)
    && leb c.max_runnable_time_us 1000000
    && leb c.max_batch_time_us c.max_runnable_time_us
    && not (c.budget_pause_ms == 0)
    && leb c.budget_pause_ms 1000

-- `RuntimeConfig{}`
abbrev pub default_config : RuntimeConfig
default_config = record {
  receive_timeout_ms = 100;
  transport_silence_timeout_us = 1000000;
  max_frames_per_batch = 16;
  max_batch_time_us = 2000;
  max_runnable_receive_calls = 512;
  max_runnable_time_us = 20000;
  budget_pause_ms = 1;
}
