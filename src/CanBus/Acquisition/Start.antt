-- ===== src/CanBus/Acquisition/Start.antt =====
-- start_with_ownership of components/can_bus/src/can_bus.cpp, with
-- include/can_bus/internal/acquisition_start.hpp.
use esp32_vehicle_can_core.Prelude.{
  ℕ, zero, suc, ◌+◌, Bool, true, false, not, ◌&&◌, [], ◌∷◌, ◌==◌, if◌then◌else◌,
}
use esp32_vehicle_can_core.CanBus.Types.{
  Result, ok, invalid_configuration, already_started, not_started, driver_failure, task_failure,
  LifecycleState, stopped, running, Configuration, queue_capacity, is_configuration_valid,
}
use esp32_vehicle_can_core.CanBus.Ring.{clear, record_controller_reset}
use esp32_vehicle_can_core.CanBus.Lifecycle.{
  begin_start, abort_start, begin_stop, reconcile, mark_driver_installed, mark_driver_started,
  mark_task_created, mark_driver_stopped, mark_driver_uninstalled, acknowledge_task,
}
use esp32_vehicle_can_core.CanBus.Platform.{
  Platform, EspErr, esp_ok, TimingConfig, kbits_125, kbits_250, kbits_500, mbits_1, bus_error,
  rx_queue_full, above_err_warn, err_pass, bus_off, InstallConfig,
}
use esp32_vehicle_can_core.CanBus.Acquisition.{Bus}

pub record StartOutcome : Type 0 where
  pub result : Result
  pub cleanup_required : Bool

unfoldable pub timing_for : ℕ → TimingConfig
timing_for bitrate_bps =
    if bitrate_bps == 125000
    then kbits_125
    else if bitrate_bps == 250000
    then kbits_250
    else if bitrate_bps == 500000
    then kbits_500
    else if bitrate_bps == 1000000
    then mbits_1
    else kbits_500

abbrev pub is_ok : EspErr → Bool
is_ok esp_ok = true
is_ok _ = false

-- `while (xSemaphoreTake(s, 0) == pdTRUE) {}`, with fuel for the rounds.
unfoldable pub drain : {W : Type 0} → (W → W × Bool) → ℕ → W → W
drain take zero w = w
drain take (suc fuel) w =
    let (w', taken) = take w in let rest = drain take fuel w' in if taken then rest else w'

abbrev pub outcome : Result → Bool → StartOutcome
outcome r c = record { result = r; cleanup_required = c }

-- The state that a start finds when it could not reserve the controller.
abbrev pub refusal : LifecycleState → Result
refusal running = already_started
refusal LifecycleState.stopping = Result.stopping
refusal LifecycleState.faulted = Result.faulted
refusal stopped = not_started

abbrev pub install_config : Configuration → InstallConfig
unfolding timing_for
install_config c = record {
  rx_queue_len = queue_capacity;
  alerts_enabled = bus_error ∷ rx_queue_full ∷ above_err_warn ∷ err_pass ∷ bus_off ∷ [];
  timing = timing_for c.bitrate_bps;
}

module _ (P : Platform) where
  create_available_once : Bus P → Bus P
  create_available_once b =
      let (w, made) = P.create_available b.world in
      if b.has_available then b else record b { world = w; has_available = made }

  create_task_stopped_once : Bus P → Bus P
  create_task_stopped_once b =
      let (w, made) = P.create_task_stopped b.world in
      if b.has_task_stopped then b else record b { world = w; has_task_stopped = made }

  unfoldable pub create_semaphores : Bus P → Bus P
  unfolding create_available_once create_task_stopped_once
  create_semaphores b = create_task_stopped_once (create_available_once b)

  unfoldable pub drain_semaphores : Bus P → Bus P
  unfolding drain
  drain_semaphores b = record b {
    world = drain P.take_task_stopped 2 (drain P.take_available (queue_capacity + 1) b.world);
  }

  -- The branch of a failed `xTaskCreate`.
  unfoldable pub undo_launch : Bus P → Bus P × StartOutcome
  unfolding begin_stop reconcile
  undo_launch b =
      let c = (begin_stop (acknowledge_task b.lifecycle)).0 in
      let (w1, stop_result) = P.driver_stop b.world in
      let (w2, uninstall_result) = P.driver_uninstall w1 in
      let halted = record b { receive_requested = false; has_receive_task = false } in
      if not (is_ok stop_result)
      then (record halted { world = w1; lifecycle = reconcile c }, outcome task_failure true)
      else if not (is_ok uninstall_result)
      then (
        record halted { world = w2; lifecycle = reconcile (mark_driver_stopped c) },
        outcome task_failure true,
      )
      else (
        record halted {
          world = w2;
          lifecycle = reconcile (mark_driver_uninstalled (mark_driver_stopped c));
        },
        outcome task_failure false,
      )

  -- From `mark_driver_started` to `mark_task_created`.
  unfoldable pub prepare_run : Configuration → Bus P → Bus P
  prepare_run configuration b =
      let cleared = clear queue_capacity b.frames in
      record b {
        lifecycle = mark_task_created (mark_driver_started b.lifecycle);
        frames = if b.has_started_before then record_controller_reset cleared 1 else cleared;
        bus_id = configuration.bus_id;
        last_driver_bus_errors = 0;
        last_driver_rx_missed = 0;
        last_driver_rx_overrun = 0;
        receive_requested = true;
      }

  -- The rest of the start. What the new task does before `xTaskCreate` returns is counted as done
  -- after it: the code that follows shares nothing with the task.
  unfoldable pub launch : Configuration → Bus P → Bus P × StartOutcome
  unfolding prepare_run
  launch configuration b =
      let ready = prepare_run configuration b in
      let (w, created) = P.create_task ready.world in
      if created
      then (
        record ready { world = w; has_receive_task = true; has_started_before = true },
        outcome ok true,
      )
      else undo_launch (record ready { world = w })

  -- The branch of a failed `twai_start`.
  unfoldable pub undo_install : Bus P → Bus P × StartOutcome
  unfolding reconcile
  undo_install b =
      let (w, result) = P.driver_uninstall b.world in
      if is_ok result
      then (
        record b { world = w; lifecycle = reconcile (mark_driver_uninstalled b.lifecycle) },
        outcome driver_failure false,
      )
      else (record b { world = w; lifecycle = reconcile b.lifecycle }, outcome driver_failure true)

  unfoldable pub open_driver : Configuration → Bus P → Bus P × StartOutcome
  unfolding abort_start
  open_driver configuration b =
      let (w1, installed) = P.driver_install (install_config configuration) b.world in
      let (w2, started) = P.driver_start w1 in
      let owner = record b { world = w2; lifecycle = mark_driver_installed b.lifecycle } in
      if not (is_ok installed)
      then (
        record b { world = w1; lifecycle = abort_start b.lifecycle },
        outcome driver_failure false,
      )
      else if is_ok started
      then launch configuration owner
      else undo_install owner

  unfoldable pub acquire : Configuration → Bus P → Bus P × StartOutcome
  unfolding drain_semaphores abort_start
  acquire configuration b =
      let b1 = create_semaphores b in
      if b1.has_available && b1.has_task_stopped
      then open_driver configuration (drain_semaphores b1)
      else (record b1 { lifecycle = abort_start b1.lifecycle }, outcome task_failure false)

  -- `others` is what other tasks do between a refused reservation and the read of the state.
  unfoldable pub start_with_ownership :
      (Bus P → Bus P) → Configuration → Bus P → Bus P × StartOutcome
  unfolding begin_start is_configuration_valid
  start_with_ownership others configuration b =
      let (c, won) = begin_start b.lifecycle in
      let b' = others b in
      if not (is_configuration_valid configuration)
      then (b, outcome invalid_configuration false)
      else if won
      then acquire configuration (record b { lifecycle = c })
      else (b', outcome (refusal b'.lifecycle.state) false)

  unfoldable pub start : (Bus P → Bus P) → Configuration → Bus P → Bus P × Result
  unfolding start_with_ownership
  start others configuration b =
      let (b', o) = start_with_ownership others configuration b in (b', o.result)
