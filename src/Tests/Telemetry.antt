-- ===== src/Tests/Telemetry.antt =====
-- The telemetry runtime's budget and its source, on the platform of Tests/Sim.
use esp32_vehicle_can_core.Prelude.{◌≡◌, ◌≢◌, ◌⊎◌, refl, true, false, [], ◌∷◌, arith}
use esp32_vehicle_can_core.CanBus.Types.{LifecycleState}
use esp32_vehicle_can_core.CanBus.Acquisition.Task.{task_steps, task_steps-IsTaskLike}
use esp32_vehicle_can_core.Telemetry.Types.{RuntimeConfig, is_config_valid}
use esp32_vehicle_can_core.Telemetry.Budget.{
  pause, checkpoint, WorkBudget, after_receive, after_pause, unpaused,
}
use esp32_vehicle_can_core.Telemetry.Budget.Bounds.{pause_by_time}
use esp32_vehicle_can_core.Telemetry.Source.{CanBusSource, start, stop}
use esp32_vehicle_can_core.Telemetry.Source.Ownership.{
  Accounted, Begun, Refused, start-Begun, Over, stop-Over,
}
use esp32_vehicle_can_core.Tests.Sim.{sim, willing, half_megabit, alone}
use esp32_vehicle_can_core.Tests.Acquisition.{live, live-Owned}

-- A tight configuration: two frames or 500 us a batch, four calls or 1000 us between pauses.
abbrev pub tight : RuntimeConfig
tight = record {
  receive_timeout_ms = 100;
  transport_silence_timeout_us = 1000000;
  max_frames_per_batch = 2;
  max_batch_time_us = 500;
  max_runnable_receive_calls = 4;
  max_runnable_time_us = 1000;
  budget_pause_ms = 1;
}

pub f_tight : is_config_valid tight ≡ true
unfolding is_config_valid
f_tight = refl

abbrev used : WorkBudget
used = record { receive_calls = 2; batch_frames = 1; batch_started = 100; runnable_started = 50 }

-- The second frame ends the batch, and the fourth call pauses in spite of it.
f_checkpoint : (after_receive tight true 300 used).1 ≡ checkpoint
unfolding after_receive
f_checkpoint = refl

abbrev after_one : WorkBudget
after_one = record {
  receive_calls = 1;
  batch_frames = 0;
  batch_started = 60;
  runnable_started = 50;
}

pause_by_time_example : (after_receive tight true 1050 after_one).1 ≡ pause
unfolding unpaused after_receive after_pause
pause_by_time_example =
    pause_by_time tight 50 1050 used after_one ((false, 60) ∷ []) true f_tight refl (omega arith)

-- A source that owns a running bus.
abbrev live_source : CanBusSource sim
live_source = record { bus = live willing; configuration = half_megabit; owns_acquisition = true }

live_source-Accounted : Accounted sim live_source
live_source-Accounted = record { bus = live-Owned willing; free = λ e. absurd cc }

-- A source that owns nothing of a bus that another owner runs.
abbrev conflicting : CanBusSource sim
conflicting = record live_source { owns_acquisition = false }

start-Begun_example :
    ((conflicting.bus.lifecycle.state ≡ LifecycleState.stopped)
      × Begun sim (start sim alone conflicting))
    ⊎ ((conflicting.bus.lifecycle.state ≢ LifecycleState.stopped)
        × Refused sim alone conflicting (start sim alone conflicting))
start-Begun_example = start-Begun sim alone conflicting (live-Owned willing) refl

stop-Over_example : Over sim live_source (stop sim (task_steps sim 3) live_source)
stop-Over_example =
    stop-Over sim (task_steps sim 3) live_source (task_steps-IsTaskLike sim 3) live_source-Accounted
