-- ===== src/CanBus/Types.antt =====
-- components/can_bus/include/can_bus/can_bus.h and private_include/can_bus/configuration.hpp.
use esp32_vehicle_can_core.Prelude.{ℕ, Bool, ◌||◌, sub32, ◌==◌}

abbrev pub queue_capacity : ℕ
queue_capacity = 64

pub data Result : Type 0 where
  ok invalid_configuration already_started not_started stopping faulted timeout : Result
  driver_failure task_failure : Result

pub data LifecycleState : Type 0 where
  stopped running stopping faulted : LifecycleState

pub LifecycleState-discrete : Discrete LifecycleState
LifecycleState-discrete = hlevel

pub record Configuration : Type 0 where
  pub bitrate_bps : ℕ
  pub bus_id : ℕ

-- The interval counters, uint64_t each.
pub record Counters : Type 0 where
  pub frames_received : ℕ
  pub frames_queued : ℕ
  pub frames_delivered : ℕ
  pub frames_dropped : ℕ
  pub queue_overflows : ℕ
  pub bus_errors : ℕ
  pub driver_rx_missed : ℕ
  pub controller_resets : ℕ
  pub bus_off_events : ℕ

abbrev pub no_counts : Counters
no_counts = record {
  frames_received = 0;
  frames_queued = 0;
  frames_delivered = 0;
  frames_dropped = 0;
  queue_overflows = 0;
  bus_errors = 0;
  driver_rx_missed = 0;
  controller_resets = 0;
  bus_off_events = 0;
}

pub record Statistics : Type 0 where
  pub counters : Counters
  pub open counters use *
  pub queue_depth : ℕ
  pub queue_high_watermark : ℕ
  pub queue_capacity_reported : ℕ

pub data StatisticsOperation : Type 0 where
  take_snapshot snapshot_and_reset : StatisticsOperation

-- `current - previous` on uint32_t, widened.
unfoldable pub counter_delta : ℕ → ℕ → ℕ
counter_delta current previous = sub32 current previous

unfoldable pub is_configuration_valid : Configuration → Bool
is_configuration_valid c =
    c.bitrate_bps == 125000
    || c.bitrate_bps == 250000
    || c.bitrate_bps == 500000
    || c.bitrate_bps == 1000000
