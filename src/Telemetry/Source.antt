-- ===== src/Telemetry/Source.antt =====
-- components/vehicle_telemetry/src/can_bus_source.cpp: an acquisition source over the CAN bus.
-- `others` is what other tasks do while a call of the bus waits.
pub mod Ownership
use esp32_vehicle_can_core.Prelude.{Bool, true, false, ◌≡◌, ◌||◌, Option, arith, if◌then◌else◌}
use esp32_vehicle_can_core.VehicleCore.Frame.{RawCanFrame}
use esp32_vehicle_can_core.CanBus.Types.{Result, Configuration, Statistics, take_snapshot}
use esp32_vehicle_can_core.CanBus.Platform.{Platform}
use esp32_vehicle_can_core.CanBus.Acquisition.{Bus}
use esp32_vehicle_can_core.CanBus.Acquisition.Start.{start_with_ownership}
use esp32_vehicle_can_core.CanBus.Acquisition.Stop
use esp32_vehicle_can_core.Telemetry.Types.{ResultCode, is_ok, ReceiveStatus, AcquisitionStatistics}

unfoldable pub map_start_result : Result → ResultCode
map_start_result Result.ok = ResultCode.ok
map_start_result Result.invalid_configuration = ResultCode.invalid_configuration
map_start_result Result.already_started = ResultCode.already_running
map_start_result Result.stopping = ResultCode.stopping
map_start_result Result.faulted = ResultCode.faulted
map_start_result Result.driver_failure = ResultCode.faulted
map_start_result Result.task_failure = ResultCode.faulted
map_start_result Result.not_started = ResultCode.invalid_state
map_start_result Result.timeout = ResultCode.invalid_state

unfoldable pub map_stop_result : Result → ResultCode
map_stop_result Result.ok = ResultCode.ok
map_stop_result Result.not_started = ResultCode.not_running
map_stop_result Result.stopping = ResultCode.stopping
map_stop_result Result.timeout = ResultCode.timeout
map_stop_result Result.faulted = ResultCode.faulted
map_stop_result Result.driver_failure = ResultCode.faulted
map_stop_result Result.task_failure = ResultCode.faulted
map_stop_result Result.invalid_configuration = ResultCode.invalid_state
map_stop_result Result.already_started = ResultCode.invalid_state

unfoldable pub map_receive_result : Result → ReceiveStatus
map_receive_result Result.ok = ReceiveStatus.frame
map_receive_result Result.timeout = ReceiveStatus.timeout
map_receive_result Result.not_started = ReceiveStatus.not_started
map_receive_result _ = ReceiveStatus.fault

unfoldable pub map_statistics : Statistics → AcquisitionStatistics
map_statistics s = record {
  frames_received = s.frames_received;
  frames_dropped = s.frames_dropped;
  queue_overflows = s.queue_overflows;
  driver_errors = s.bus_errors;
  missed_frames = s.driver_rx_missed;
  controller_resets = s.controller_resets;
  bus_off_events = s.bus_off_events;
}

-- The source, with the globals of the bus that it calls.
pub record CanBusSource (P : Platform) : Type 0 where
  pub bus : Bus P
  pub configuration : Configuration
  pub owns_acquisition : Bool

abbrev pub is_not_running : ResultCode → Bool
is_not_running ResultCode.not_running = true
is_not_running _ = false

module _ (P : Platform) where
  -- The copy constructor: a copy has the configuration only.
  unfoldable pub copied : CanBusSource P → CanBusSource P
  copied other = record other { owns_acquisition = false }

  -- The assignment, from a source with that configuration.
  unfoldable pub assigned : Configuration → CanBusSource P → CanBusSource P
  assigned other s = record s { configuration = other }

  unfoldable pub start : (Bus P → Bus P) → CanBusSource P → CanBusSource P × ResultCode
  start others s =
      let (b, outcome) = start_with_ownership P others s.configuration s.bus in
      (
        record s {
          bus = b;
          owns_acquisition = if outcome.cleanup_required then true else s.owns_acquisition;
        },
        map_start_result outcome.result,
      )

  unfoldable pub stop : (Bus P → Bus P) → CanBusSource P → CanBusSource P × ResultCode
  stop others s =
      let (b, r) = Stop.stop P others s.bus in
      let result = map_stop_result r in
      if s.owns_acquisition
      then (
        record s {
          bus = b;
          owns_acquisition = if is_ok result || is_not_running result then false else true;
        },
        result,
      )
      else (s, ResultCode.not_running)

  abbrev pub supports_stop_retry : CanBusSource P → Bool
  supports_stop_retry s = true

  unfoldable pub retry_stop : (Bus P → Bus P) → CanBusSource P → CanBusSource P × ResultCode
  retry_stop others s = stop others s

  unfoldable pub receive :
      (Bus P → Bus P) → CanBusSource P → CanBusSource P × ReceiveStatus × Option RawCanFrame
  receive others s =
      let (b, r, frame) = Stop.receive P others s.bus in
      (record s { bus = b }, map_receive_result r, frame)

  unfoldable pub statistics : CanBusSource P → CanBusSource P × AcquisitionStatistics
  statistics s =
      let (b, r) = Stop.statistics P take_snapshot s.bus in (record s { bus = b }, map_statistics r)

  -- A copy stops nothing, whatever the source that it was made of owns, and an assignment leaves it
  -- to a stop to give the ownership up.
  copied-stops_nothing :
      (others : Bus P → Bus P) (configuration : Configuration) (s : CanBusSource P)
      → (stop others (copied s) ≡ (copied s, ResultCode.not_running))
        × ((stop others (assigned configuration s)).1 ≡ (stop others s).1)
        × ((stop others (assigned configuration s)).0.owns_acquisition
            ≡ (stop others s).0.owns_acquisition)
  unfolding stop copied assigned
  copied-stops_nothing others configuration s = ground arith
