-- ===== src/Tests/Baseline.antt =====
-- The fixture of tools/runtime_baseline and the traces of its firmware, run.
use esp32_vehicle_can_core.Prelude.{
  ℕ, zero, suc, ◌+◌, ◌≡◌, ◌≢◌, ◌⊎◌, refl, true, false, some, List, [], ◌∷◌, ◌++◌, arith, get_or,
  u32,
}
use esp32_vehicle_can_core.Telemetry.Types.{ResultCode, LifecycleState, is_config_valid}
use esp32_vehicle_can_core.Telemetry.Runtime.{Runtime, no_owner, no_diagnostics, no_statistics}
use esp32_vehicle_can_core.Telemetry.Runtime.Control
use esp32_vehicle_can_core.Telemetry.Runtime.Loop.{run_loop}
use esp32_vehicle_can_core.Baseline.Queue.{empty_queue, add, pop, fill}
use esp32_vehicle_can_core.Baseline.Queue.Invariant.{empty_queue-IsValid, add-IsValid}
use esp32_vehicle_can_core.Baseline.Queue.Refine.{
  contents, generate, consume, run, run_fifo, run_queue_refines,
}
use esp32_vehicle_can_core.Baseline.Fixture.{Platform, Scenario, new_fixture}
use esp32_vehicle_can_core.Baseline.Fixture.Source
use esp32_vehicle_can_core.Baseline.Fixture.Composition.{Host, surroundings}
use esp32_vehicle_can_core.Baseline.Fixture.Conservation.{LeavesCounts}
use esp32_vehicle_can_core.Baseline.Fixture.Running.{Accounts, run_conserves}
use esp32_vehicle_can_core.Baseline.Residency.{
  no_core, no_residency, select, select_core, close, finish,
}
use esp32_vehicle_can_core.Baseline.Residency.Segments.{Switch, switched, stays, Measured}
use esp32_vehicle_can_core.Baseline.Residency.Trace.{
  Trace, baseline_trace_begin, baseline_trace_end, switch_context,
}
use esp32_vehicle_can_core.Baseline.Residency.Measuring.{after_all, trace_all, trace_measures}
use esp32_vehicle_can_core.Baseline.Residency.Segments.{largest}
use esp32_vehicle_can_core.Baseline.Report.{Run}
use esp32_vehicle_can_core.Baseline.Firmware.Measuring.{Beside, measured, Prints, measured_lem}
use esp32_vehicle_can_core.Telemetry.Runtime.Worker.{worker_step, worker_step-IsWorkerLike}
use esp32_vehicle_can_core.Baseline.Firmware.Idle.{
  IdleHooks, begin_idle, hooks, end_idle, calls, gaps, idle_measures,
}
use esp32_vehicle_can_core.Tests.Telemetry.{tight}

-- A burst beyond the capacity: the 129th number and those after it are dropped.
f_burst : let q = add 200 empty_queue in (q.dropped ≡ 72) × (q.size ≡ 128) × ((pop q).1 ≡ some 0)
unfolding add fill pop
f_burst = (refl, refl, refl)

run_queue_refines_example :
    run (add 126 empty_queue) (generate 4 ∷ consume ∷ generate 1 ∷ consume ∷ [])
    ≡ run_fifo
        (add 126 empty_queue).generated
        (contents (add 126 empty_queue))
        (generate 4 ∷ consume ∷ generate 1 ∷ consume ∷ [])
run_queue_refines_example =
    run_queue_refines (add 126 empty_queue) (generate 4 ∷ consume ∷ generate 1 ∷ consume ∷ [])
      (add-IsValid 126 empty_queue empty_queue-IsValid)

-- A platform whose world is its clock, and whose floats are sums.
abbrev clock : Platform
clock = record {
  World = ℕ;
  now = λ w. (w + 1, w);
  busy = λ us w. w + us;
  wait = λ us cancelled w. (w + us, false);
  wake = λ w. w;
  after_float = λ running affinity w. (w, running, affinity);
  Float = ℕ;
  half = 0;
  blend = λ c n. c + n;
}

abbrev desk : Host clock
desk = record {
  clock_now = λ w. (w, w);
  system_now = λ w. (w, w);
  create_task = λ w. (w, true);
  tick_rate_hz = 100;
}

abbrev burst : Scenario
burst = record {
  name = "burst";
  initial_frames = 2;
  arrival_batch = 3;
  arrival_interval_us = 1000;
  processor_work_us = 10;
  observer_work_us = 0;
  frame_limit = 100;
  mixed = true;
}

abbrev bench : Runtime (surroundings clock desk)
bench = record {
  world = new_fixture clock 0 burst true;
  lifecycle_operation_active = false;
  config = tight;
  diagnostics = no_diagnostics;
  acquisition_statistics_cache = no_statistics;
  acquisition_statistics_sample_us = 0;
  acquisition_statistics_cache_valid = false;
  lifecycle = LifecycleState.stopped;
  stop_requested = false;
  worker_active = false;
  source = record {
    source_started = false;
    source_ownership = no_owner;
    source_stop_called = false;
    partial_cleanup_attempts = 0;
    source_stop_result = ResultCode.ok;
    source_stop_retry_supported = false;
  };
}

-- A stop is requested in the last round.
abbrev stopped_last : ℕ → Runtime (surroundings clock desk) → Runtime (surroundings clock desk)
stopped_last zero r = record r { stop_requested = true }
stopped_last (suc fuel) r = r

stopped_last-leaves : (n : ℕ) → LeavesCounts clock desk (stopped_last n)
stopped_last-leaves zero r = (refl, refl, refl, refl, refl)
stopped_last-leaves (suc n) r = (refl, refl, refl, refl, refl)

f_bench : (Control.start (surroundings clock desk) bench).1 ≡ ResultCode.ok
unfolding Control.start Control.start_source Control.run_source Control.publish_run new_fixture
    is_config_valid Source.start
f_bench = refl

run_conserves_example :
    (r' : Runtime (surroundings clock desk)) × (run_loop
        (surroundings clock desk)
        stopped_last
        3
        (Control.start (surroundings clock desk) bench).0
      ≡ some r')
    × (Accounts clock desk 0 r' ⊎ Accounts clock desk 1 r')
unfolding new_fixture
run_conserves_example =
    run_conserves clock desk stopped_last 2 bench (refl, refl, refl) f_bench stopped_last-leaves
      (λ r'. refl)

-- The worker, task 7, is selected on core 0 from 12 to 53 and on core 1 from 83 on.
abbrev first_run : Switch
first_run = record { cpu = 0; task = 7; at = 12; named = true }

abbrev idle_trace : Trace
idle_trace = record { residency = no_residency; measuring = false; watchdog_events = 0 }

abbrev idle_first : List Switch
idle_first = record { cpu = 0; task = 3; at = 5; named = false } ∷ []

abbrev then_moved : List Switch
then_moved =
    record { cpu = 0; task = 7; at = 33; named = true }
    ∷ record { cpu = 0; task = 8; at = 53; named = false }
    ∷ record { cpu = 1; task = 7; at = 83; named = true }
    ∷ []

f_moved :
    let t =
      trace_all
        (λ k. 0)
        (idle_first ++ (first_run ∷ then_moved))
        (baseline_trace_begin true idle_trace) in
    let cores = (baseline_trace_end 200 t).1.cores in
    ((get_or cores 0 no_core).maximum_us ≡ 41)
    × ((get_or cores 0 no_core).reselections ≡ 1)
    × ((get_or cores 1 no_core).maximum_us ≡ 117)
unfolding trace_all baseline_trace_begin baseline_trace_end switch_context select select_core close
    finish
f_moved = (refl, refl, refl)

elsewhere : (k : ℕ) → after_all (λ k. 0) idle_first k ≢ 7
unfolding after_all
elsewhere k = ground arith

trace_measures_example :
    Measured no_core
      (stays 7 0 (switched (after_all (λ k. 0) idle_first) first_run) 12 then_moved 200)
      (get_or
        (baseline_trace_end 200 (
          trace_all
            (λ k. 0)
            (idle_first ++ (first_run ∷ then_moved))
            (baseline_trace_begin true idle_trace))).1.cores
        0
        no_core)
trace_measures_example =
    trace_measures (λ k. 0) idle_first then_moved first_run 200 0 idle_trace (refl, tt) refl
      (omega arith) (omega arith) (omega arith) elsewhere

-- Core 0 is idle at 120 and 170, core 1 at 150 only.
abbrev idle_calls : List (ℕ × ℕ)
idle_calls = (0, 120) ∷ (1, 150) ∷ (0, 170) ∷ []

abbrev no_run : Run
no_run = record {
  elapsed_us = 0;
  stop_us = 0;
  idle_calls = [];
  maximum_idle_gap_us = [];
  residency = no_residency;
  watchdog_events = 0;
}

abbrev no_hooks : IdleHooks
no_hooks = record { idle = []; measuring = false }

f_gaps : gaps 1 100 idle_calls 220 ≡ 50 ∷ 70 ∷ []
unfolding gaps
f_gaps = refl

idle_measures_example :
    let (h', run') = end_idle 220 no_run (hooks idle_calls (begin_idle 100 no_hooks)) in
    (h'.measuring ≡ false)
    × (u32 (get_or run'.idle_calls 1 0) ≡ u32 (calls 1 idle_calls))
    × (get_or run'.maximum_idle_gap_us 1 0 ≡ largest 0 (gaps 1 100 idle_calls 220))
idle_measures_example = idle_measures 100 220 idle_calls no_run no_hooks 1 (omega arith)

-- A controller beside which the worker makes a round of its own at each delay.
abbrev beside : Beside clock desk
beside = record {
  worker = worker_step (surroundings clock desk);
  waited = worker_step (surroundings clock desk);
  hooked = λ h. h;
  traced = λ t. t;
}

measured_lem_example :
    let (r, idle, trace, printed) =
      measured clock desk true beside burst true 0 0 no_hooks idle_trace in
    Prints clock desk "burst" r printed
measured_lem_example =
    measured_lem clock desk true beside burst true 0 0 no_hooks idle_trace
      (worker_step-IsWorkerLike (surroundings clock desk))
      (worker_step-IsWorkerLike (surroundings clock desk))
