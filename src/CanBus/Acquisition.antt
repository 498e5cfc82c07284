-- ===== src/CanBus/Acquisition.antt =====
-- The globals of components/can_bus/src/can_bus.cpp and its receive task.
pub mod Start
pub mod Stop
pub mod Starting
pub mod Interval
pub mod Stopping
pub mod Counting
pub mod Task
pub mod Offering
pub mod Ending
pub mod Receiving
use esp32_vehicle_can_core.Prelude.{
  ℕ, zero, suc, ◌+◌, Bool, true, false, not, ◌&&◌, ◌||◌, Option, none, some, if◌then◌else◌, u64,
}
use esp32_vehicle_can_core.VehicleCore.Frame.{RawCanFrame, standard, extended, is_valid}
use esp32_vehicle_can_core.CanBus.Types.{queue_capacity, counter_delta}
use esp32_vehicle_can_core.CanBus.Ring.{
  FrameRing, push, record_bus_error, record_driver_rx_missed, record_bus_off,
}
use esp32_vehicle_can_core.CanBus.Lifecycle.{LifecycleController, latch_fault, acknowledge_task}
use esp32_vehicle_can_core.CanBus.Platform.{
  Platform, EspErr, esp_ok, esp_timeout, esp_failure, Message, StatusInfo,
}

-- The file's globals, with the world behind them. A handle is the test whether it is null.
pub record Bus (P : Platform) : Type 0 where
  pub world : P.World
  pub frames : FrameRing
  pub has_available : Bool
  pub has_receive_task : Bool
  pub has_task_stopped : Bool
  pub receive_requested : Bool
  pub lifecycle : LifecycleController
  pub bus_id : ℕ
  pub has_started_before : Bool
  pub last_driver_rx_missed : ℕ
  pub last_driver_rx_overrun : ℕ
  pub last_driver_bus_errors : ℕ

module _ (P : Platform) where
  unfoldable pub latch_terminal_fault : Bus P → Bus P
  latch_terminal_fault b =
      let (c, latched) = latch_fault b.lifecycle in
      record b {
        world = if latched && b.has_available then P.give_available b.world else b.world;
        lifecycle = c;
        receive_requested = false;
      }

  unfoldable pub alerts_read : Bus P → EspErr → Bool → Bus P × Bool
  alerts_read b esp_timeout off = (b, true)
  alerts_read b esp_failure off = (latch_terminal_fault b, false)
  alerts_read b esp_ok off =
      if off
      then (latch_terminal_fault (record b { frames = record_bus_off b.frames 1 }), false)
      else (b, true)

  unfoldable pub collect_alerts : Bus P → Bus P × Bool
  collect_alerts b =
      let (w, result, off) = P.read_alerts b.world in
      alerts_read (record b { world = w }) result off

  unfoldable pub status_read : Bus P → EspErr → StatusInfo → Bus P × Bool
  status_read b esp_ok status =
      let counted =
        record_bus_error b.frames (counter_delta status.bus_error_count b.last_driver_bus_errors) in
      (
        record b {
          frames = record_driver_rx_missed counted (
              u64 (
                counter_delta status.rx_missed_count b.last_driver_rx_missed
                + counter_delta status.rx_overrun_count b.last_driver_rx_overrun));
          last_driver_bus_errors = status.bus_error_count;
          last_driver_rx_missed = status.rx_missed_count;
          last_driver_rx_overrun = status.rx_overrun_count;
        },
        true,
      )
  status_read b _ status = (latch_terminal_fault b, false)

  unfoldable pub collect_driver_status : Bus P → Bus P × Bool
  collect_driver_status b =
      let (w, result, status) = P.get_status_info b.world in
      status_read (record b { world = w }) result status

  -- The frame that the task builds from a message, stamped by the timer.
  abbrev pub to_frame : Bus P → Message → ℕ → RawCanFrame
  to_frame b m now = record {
    timestamp_us = now;
    bus_id = b.bus_id;
    identifier = m.identifier;
    identifier_format = if m.extd then extended else standard;
    remote_request = m.rtr;
    dlc = m.data_length_code;
    data_bytes = m.data_bytes;
  }

  unfoldable pub offer_frame : Bus P → RawCanFrame → Bus P
  offer_frame b frame =
      let (ring, accepted) = push queue_capacity b.frames frame in
      if not (is_valid frame)
      then record b { frames = record_driver_rx_missed b.frames 1 }
      else record b {
        frames = ring;
        world = if accepted then P.give_available b.world else b.world;
      }

  unfoldable pub message_read : Bus P → EspErr → Message → Bus P × Bool
  message_read b esp_ok m =
      let (w, now) = P.timer_us b.world in
      (offer_frame (record b { world = w }) (to_frame b m now), true)
  message_read b esp_timeout m = (b, true)
  message_read b esp_failure m = (latch_terminal_fault b, false)

  -- The first half of a round: what the driver's receive brings, and whether the loop goes on.
  unfoldable pub receive_message : Bus P → Bus P × Bool
  receive_message b =
      let (w, result, m) = P.driver_receive b.world in
      message_read (record b { world = w }) result m

  -- One round of the loop of `receive_task`; false where it breaks.
  unfoldable pub receive_round : Bus P → Bus P × Bool
  receive_round b =
      let (b1, received) = receive_message b in
      let (b2, counted) = collect_driver_status b1 in
      let (b3, calm) = collect_alerts b2 in
      if not received then (b1, false) else if not counted then (b2, false) else (b3, calm)

  -- What the task does when its loop is over.
  unfoldable pub finish_task : Bus P → Bus P
  finish_task b = record b {
    lifecycle = acknowledge_task b.lifecycle;
    world = P.give_task_stopped b.world;
  }

  -- `receive_task`, with what other tasks do before each test of the loop; fuel bounds the rounds
  -- that are looked at, and `none` means that the task is still in its loop after them.
  unfoldable pub receive_task : (ℕ → Bus P → Bus P) → ℕ → Bus P → Option (Bus P)
  receive_task others zero b = none
  receive_task others (suc fuel) b =
      let b0 = others fuel b in
      let (b1, goes_on) = receive_round b0 in
      let rest = receive_task others fuel b1 in
      if not b0.receive_requested
      then some (finish_task b0)
      else if goes_on
      then rest
      else some (finish_task b1)
