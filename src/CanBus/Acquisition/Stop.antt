-- ===== src/CanBus/Acquisition/Stop.antt =====
-- stop, receive and statistics of components/can_bus/src/can_bus.cpp. `others` is what other tasks
-- do while a call waits for a semaphore.
use esp32_vehicle_can_core.Prelude.{
  ◌+◌, Bool, true, false, not, ◌&&◌, Option, none, some, if◌then◌else◌,
}
use esp32_vehicle_can_core.VehicleCore.Frame.{RawCanFrame}
use esp32_vehicle_can_core.CanBus.Types.{
  Result, ok, not_started, timeout, driver_failure, task_failure, LifecycleState, stopped, running,
  Statistics, StatisticsOperation, queue_capacity,
}
use esp32_vehicle_can_core.CanBus.Ring.{pop, snapshot}
use esp32_vehicle_can_core.CanBus.Lifecycle.{
  begin_stop, reconcile, mark_driver_stopped, mark_driver_uninstalled, acknowledge_task,
}
use esp32_vehicle_can_core.CanBus.Platform.{Platform}
use esp32_vehicle_can_core.CanBus.Acquisition.{Bus}
use esp32_vehicle_can_core.CanBus.Acquisition.Start.{is_ok, drain}

-- `g_frames.pop(frame) ? Result::kOk : Result::kDriverFailure`
abbrev pub pop_result : Option RawCanFrame → Result
pop_result none = driver_failure
pop_result (some f) = ok

-- What a state other than running makes of a call of `receive`; none for running.
abbrev pub ended : LifecycleState → Option Result
ended stopped = some not_started
ended LifecycleState.stopping = some Result.stopping
ended LifecycleState.faulted = some Result.faulted
ended running = none

abbrev pub or_else : Option Result → Result → Result
or_else none r = r
or_else (some r) _ = r

module _ (P : Platform) where
  -- Each step answers whether its owner is gone.
  unfoldable pub stop_driver : Bus P → Bus P × Bool
  stop_driver b =
      let (w, result) = P.driver_stop b.world in
      if not b.lifecycle.driver_started
      then (b, true)
      else if is_ok result
      then (record b { world = w; lifecycle = mark_driver_stopped b.lifecycle }, true)
      else (record b { world = w }, false)

  unfoldable pub join_task : (Bus P → Bus P) → Bus P → Bus P × Bool
  join_task others b =
      let b' = others b in
      let (w, acknowledged) = P.take_task_stopped b'.world in
      let (w0, cleared) = P.take_task_stopped b.world in
      if not b.lifecycle.task_owned
      then (record b { world = w0; has_receive_task = false }, true)
      else if acknowledged
      then (
        record b' {
          world = w;
          lifecycle = acknowledge_task b'.lifecycle;
          has_receive_task = false;
        },
        true,
      )
      else (record b' { world = w }, false)

  unfoldable pub uninstall_driver : Bool → Bool → Bus P → Bus P × Bool
  uninstall_driver driver_stopped task_stopped b =
      let (w, result) = P.driver_uninstall b.world in
      if not b.lifecycle.driver_installed
      then (b, true)
      else if not (driver_stopped && task_stopped)
      then (b, false)
      else if is_ok result
      then (record b { world = w; lifecycle = mark_driver_uninstalled b.lifecycle }, true)
      else (record b { world = w }, false)

  unfoldable pub drain_available_if_any : Bus P → Bus P
  drain_available_if_any b =
      if b.has_available
      then record b { world = drain P.take_available (queue_capacity + 1) b.world }
      else b

  -- The part of `stop` behind its first guard.
  unfoldable pub release : (Bus P → Bus P) → Bus P → Bus P × Result
  release others b =
      let (b1, driver_stopped) = stop_driver b in
      let (b2, task_stopped) = join_task others b1 in
      let (b3, driver_uninstalled) = uninstall_driver driver_stopped task_stopped b2 in
      let b4 = record b3 { lifecycle = reconcile b3.lifecycle } in
      if driver_stopped && task_stopped && driver_uninstalled
      then (drain_available_if_any b4, ok)
      else (b4, if task_stopped then driver_failure else task_failure)

  unfoldable pub stop : (Bus P → Bus P) → Bus P → Bus P × Result
  stop others b =
      let (c, accepted) = begin_stop b.lifecycle in
      if accepted
      then release others (record b { lifecycle = c; receive_requested = false })
      else (b, not_started)

  -- `next` unless the state has ended the call.
  abbrev pub unless_ended :
      Option Result
      → Bus P
      → Bus P × Result × Option RawCanFrame
      → Bus P × Result × Option RawCanFrame
  unless_ended none b next = next
  unless_ended (some r) b next = (b, r, none)

  unfoldable pub pop_frame : Bus P → Bus P × Result × Option RawCanFrame
  pop_frame b =
      let (ring, frame) = pop queue_capacity b.frames in
      (record b { frames = ring }, pop_result frame, frame)

  -- After the wait: `taken` is the semaphore's answer.
  unfoldable pub woken : Bus P → Bool → Bus P × Result × Option RawCanFrame
  woken b taken =
      if taken
      then unless_ended (ended b.lifecycle.state) b (pop_frame b)
      else (b, or_else (ended b.lifecycle.state) timeout, none)

  unfoldable pub receive : (Bus P → Bus P) → Bus P → Bus P × Result × Option RawCanFrame
  receive others b =
      let b' = others b in
      let (w, taken) = P.take_available b'.world in
      unless_ended (ended b.lifecycle.state) b (woken (record b' { world = w }) taken)

  unfoldable pub statistics : StatisticsOperation → Bus P → Bus P × Statistics
  unfolding snapshot
  statistics op b =
      let (ring, s) = snapshot queue_capacity b.frames op in (record b { frames = ring }, s)
