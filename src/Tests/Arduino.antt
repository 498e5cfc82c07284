-- ===== src/Tests/Arduino.antt =====
-- The sketches of examples/arduino, run.
use esp32_vehicle_can_core.Prelude.{
  ℕ, zero, suc, ◌⊎◌, Bool, ◌/◌, ◌^◌, ◌%◌, ltb, arith, ◌+◌, ◌*◌, ◌≡◌, refl, inl, inr, true, false,
  some,
}
use esp32_vehicle_can_core.Telemetry.Types.{ResultCode, LifecycleState, is_config_valid}
use esp32_vehicle_can_core.Telemetry.Runtime.{
  Runtime, no_owner, successful_start, no_diagnostics, no_statistics, reset_cache,
}
use esp32_vehicle_can_core.Telemetry.Runtime.Control.{start, start_source, run_source, stop}
use esp32_vehicle_can_core.Telemetry.Runtime.Ownership.{RunOwned, Consistent}
use esp32_vehicle_can_core.Telemetry.Runtime.Worker.{worker_step, worker_step-IsWorkerLike}
use esp32_vehicle_can_core.Arduino.Control.{
  stop_checked, stop_runtime, start_runtime, restart_command, obey,
}
use esp32_vehicle_can_core.Telemetry.Types.{default_config}
use esp32_vehicle_can_core.Arduino.Settling.{Settles, stop_checked-Settles}
use esp32_vehicle_can_core.Arduino.Obeying.{Restarts, restart_lem}
use esp32_vehicle_can_core.Arduino.Harness.{
  Board, Harness, frames, one_frame, surroundings, begin_case,
}
use esp32_vehicle_can_core.Arduino.ReceiveOnly
use esp32_vehicle_can_core.Arduino.ReceiveOnly.{Clocks, reset_observer, observed}
use esp32_vehicle_can_core.Arduino.Observing.{prepared, LeavesSeen, observed_count}
use esp32_vehicle_can_core.Tests.Sim.{sim, initial, willing, half_megabit, alone}
use esp32_vehicle_can_core.Telemetry.Runtime.Loop.{run_loop}
use esp32_vehicle_can_core.Telemetry.Source
use esp32_vehicle_can_core.Telemetry.Source.{map_start_result}
use esp32_vehicle_can_core.CanBus.Acquisition.Start.{
  start_with_ownership, acquire, create_semaphores, open_driver, launch,
}
use esp32_vehicle_can_core.Arduino.Starting.{BeginsClean, begin_case_lem}
use esp32_vehicle_can_core.Arduino.Waiting.{Passes, wait_for, wait_for_ends}
use esp32_vehicle_can_core.Arduino.Retrying.{failed_stop_retries}
use esp32_vehicle_can_core.Tests.Script.{scripted, kind, active, active-Consistent}

stop_checked-Settles_example :
    Settles scripted (stop_checked scripted (worker_step scripted) (active kind))
    × (stop_runtime scripted (worker_step scripted) (active kind)
        ≡ stop_checked scripted (worker_step scripted) (active kind))
stop_checked-Settles_example =
    stop_checked-Settles scripted (worker_step scripted) (active kind)
      (worker_step-IsWorkerLike scripted) (active-Consistent kind)

restart_lem_example :
    Restarts scripted
      (λ w. w)
      (worker_step scripted)
      (stop scripted (worker_step scripted) false (active kind))
      (obey scripted (λ w. w) (worker_step scripted) restart_command (active kind))
    × ((LifecycleState.running ≡ LifecycleState.stopped)
        ⊎ (start_runtime scripted (λ w. w) (worker_step scripted) (active kind) ≡ active kind))
restart_lem_example =
    restart_lem scripted (λ w. w) (worker_step scripted) (active kind)
      (worker_step-IsWorkerLike scripted) (active-Consistent kind)

-- A board whose world is its clock in microseconds.
abbrev board : Board
board = record {
  World = ℕ;
  delay = λ ms w. w + ms * 1000;
  millis = λ w. (w + 1, w / 1000 % 2 ^ 32);
  esp_timer_get_time = λ w. (w + 1, w);
  clock_now = λ w. (w + 1, w);
  system_now = λ w. (w + 1, w);
  create_task = λ w. (w, true);
  tick_rate_hz = 100;
}

abbrev harness : Harness board
harness = record {
  world = 0;
  source = record {
    input = frames;
    fail_start = false;
    fail_stop_once = true;
    running = true;
    calls = 4;
    frame_count = 4;
    stops = 0;
    retries = 0;
  };
  processor = record { fail = false; processed = 4 };
  observer = record {
    delay_ms = 0;
    completed = 4;
    diagnostic_calls = 4;
    max_us = 1;
    active = false;
  };
}

-- A runtime that processes the frames of the source whose first stop fails.
abbrev in_case : Runtime (surroundings board)
in_case = record {
  world = harness;
  lifecycle_operation_active = false;
  config = default_config;
  diagnostics = no_diagnostics;
  acquisition_statistics_cache = no_statistics;
  acquisition_statistics_sample_us = 0;
  acquisition_statistics_cache_valid = false;
  lifecycle = LifecycleState.running;
  stop_requested = false;
  worker_active = true;
  source = record {
    source_started = true;
    source_ownership = successful_start;
    source_stop_called = false;
    partial_cleanup_attempts = 0;
    source_stop_result = ResultCode.ok;
    source_stop_retry_supported = true;
  };
}

in_case-Consistent : Consistent (surroundings board) in_case
in_case-Consistent = record {
  idle = refl;
  source = inr (inl (record { started = refl; owned = refl }));
  stopped = λ e. cc;
  no_worker = λ e. cc;
  retried = λ o c. refl;
}

failed_stop_retries_example :
    let (r1, result) = stop (surroundings board) (worker_step (surroundings board)) false in_case in
    let (r2, done) = stop_checked (surroundings board) (worker_step (surroundings board)) r1 in
    ((result ≡ ResultCode.timeout)
      × (r1.lifecycle ≡ LifecycleState.stopping)
      × RunOwned r1.source
      × (start (surroundings board) r1 ≡ (r1, ResultCode.stopping)))
    × (done ≡ true)
    × (r2.world.source.stops ≡ 1)
    × (r2.world.source.retries ≡ 1)
unfolding is_config_valid
failed_stop_retries_example =
    failed_stop_retries board in_case in_case-Consistent (record { started = refl; owned = refl })
      (λ e. cc) refl refl refl refl

abbrev clocks : Clocks sim
clocks = record {
  clock_now = λ w. (w, 5);
  system_now = λ w. (w, 5);
  create_task = λ w. (w, true);
  tick_rate_hz = 100;
  beside = alone;
}

-- The sketch before its setup, on a bus that starts.
abbrev unstarted : Runtime (ReceiveOnly.surroundings sim clocks)
unstarted = record {
  world = record {
    bus_source = record {
      bus = initial willing;
      configuration = half_megabit;
      owns_acquisition = false;
    };
    count = 7;
  };
  lifecycle_operation_active = false;
  config = default_config;
  diagnostics = no_diagnostics;
  acquisition_statistics_cache = no_statistics;
  acquisition_statistics_sample_us = 0;
  acquisition_statistics_cache_valid = false;
  lifecycle = LifecycleState.stopped;
  stop_requested = false;
  worker_active = false;
  source = record {
    source_started = false;
    source_ownership = no_owner;
    source_stop_called = false;
    partial_cleanup_attempts = 0;
    source_stop_result = ResultCode.ok;
    source_stop_retry_supported = false;
  };
}

f_begun :
    (start (ReceiveOnly.surroundings sim clocks) (prepared sim clocks unstarted)).1 ≡ ResultCode.ok
unfolding start is_config_valid start_source Source.start map_start_result start_with_ownership
    reset_cache reset_observer acquire create_semaphores open_driver launch run_source
f_begun = refl

-- Another task requests a stop once no round is left.
abbrev stops_last :
    ℕ
    → Runtime (ReceiveOnly.surroundings sim clocks)
    → Runtime (ReceiveOnly.surroundings sim clocks)
stops_last zero r = record r { stop_requested = true }
stops_last (suc n) r = r

stops_last-LeavesSeen : (n : ℕ) → LeavesSeen sim clocks (stops_last n)
stops_last-LeavesSeen zero r = (refl, refl)
stops_last-LeavesSeen (suc n) r = (refl, refl)

observed_count_example :
    (r' : Runtime (ReceiveOnly.surroundings sim clocks)) × (run_loop
        (ReceiveOnly.surroundings sim clocks)
        stops_last
        3
        (start_runtime
          (ReceiveOnly.surroundings sim clocks)
          (reset_observer sim clocks)
          (λ r. r)
          unstarted)
      ≡ some r')
    × ((observed sim clocks r'.world).value ≡ some r'.diagnostics.frames_processed)
observed_count_example =
    observed_count sim clocks (λ r. r) stops_last 2 unstarted refl refl f_begun
      stops_last-LeavesSeen (λ r. refl)

begin_case_lem_example :
    let (stopped, done) =
      stop_checked (surroundings board) (worker_step (surroundings board)) in_case in
    let begun =
      begin_case board (worker_step (surroundings board)) one_frame 35 false true in_case in
    ((done ≡ false) × (begun ≡ (stopped, false)))
    ⊎ ((done ≡ true) × BeginsClean board one_frame false true begun)
begin_case_lem_example =
    begin_case_lem board (worker_step (surroundings board)) one_frame 35 false true in_case
      (worker_step-IsWorkerLike (surroundings board)) in_case-Consistent (λ w. refl)

-- The sketch waits for a fifth callback, which never comes.
abbrev fifth : Runtime (surroundings board) → Runtime (surroundings board) × Bool
fifth r = (r, ltb 4 r.world.observer.completed)

fifth-Passes : Passes board (λ r. r) fifth (λ r. r.world.world / 1000) (λ r. r.world.world / 1000)
fifth-Passes = record {
  steady = λ r. (omega arith, omega arith);
  shown = λ r. refl;
  read = λ r. (omega arith, omega arith, omega arith);
  looked = λ r. (omega arith, omega arith, omega arith);
  delayed = λ r. (omega arith, omega arith, omega arith);
}

wait_for_ends_example :
    (a : Runtime (surroundings board) × Bool) × (wait_for board (λ r. r) fifth 503 in_case ≡ some a)
wait_for_ends_example =
    wait_for_ends board (λ r. r) fifth (λ r. r.world.world / 1000) (λ r. r.world.world / 1000)
      in_case fifth-Passes
