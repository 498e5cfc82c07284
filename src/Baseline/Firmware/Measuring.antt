-- ===== src/Baseline/Firmware/Measuring.antt =====
-- The measurement of one run by app_main of firmware/runtime-synthetic-baseline/main/main.cpp, from
-- the construction of fixture and runtime to the row of the report.
use Prim.Native.String.{String}
use esp32_vehicle_can_core.Prelude.{
  ℕ, ◌≡◌, inl, inr, refl, Bool, false, ◌&&◌, List, [], ◌∷◌, arith, if_elim, if◌then◌else◌, sub64,
  Bool-cases,
}
use esp32_vehicle_can_core.Telemetry.Types.{
  ResultCode, is_ok, LifecycleState, RuntimeConfig, default_config,
}
use esp32_vehicle_can_core.Telemetry.Runtime.{Runtime, no_owner, no_diagnostics, no_statistics}
use esp32_vehicle_can_core.Telemetry.Runtime.Control.{configure, start, stop}
use esp32_vehicle_can_core.Telemetry.Runtime.Ownership.{Free, Consistent}
use esp32_vehicle_can_core.Telemetry.Runtime.Starting.{start-Consistent, configure-Consistent}
use esp32_vehicle_can_core.Telemetry.Runtime.Stopping.{
  IsWorkerLike, stop-Stopped, worker-Consistent,
}
use esp32_vehicle_can_core.Baseline.Fixture.{Platform, Scenario, Fixture, new_fixture, read_now}
use esp32_vehicle_can_core.Baseline.Fixture.Composition.{Host, surroundings}
use esp32_vehicle_can_core.Baseline.Residency.{no_residency}
use esp32_vehicle_can_core.Baseline.Residency.Trace.{
  Trace, baseline_trace_begin, baseline_trace_end, baseline_watchdog_events,
}
use esp32_vehicle_can_core.Baseline.Report.{Cell, print_run}
use esp32_vehicle_can_core.Baseline.Firmware.Idle.{IdleHooks, begin_idle, end_idle}

-- What is printed of a run: its row, or that it failed and the result of its stop.
pub data Printed : Type 0 where
  row : List Cell → Printed
  baseline_error : String → ResultCode → Printed

abbrev pub measuring_config : RuntimeConfig
measuring_config = record default_config { receive_timeout_ms = 1 }

module _ (P : Platform) (H : Host P) where
  -- A runtime as it is constructed.
  abbrev pub new_runtime : Fixture P → Runtime (surroundings P H)
  new_runtime f = record {
    world = f;
    lifecycle_operation_active = false;
    config = default_config;
    diagnostics = no_diagnostics;
    acquisition_statistics_cache = no_statistics;
    acquisition_statistics_sample_us = 0;
    acquisition_statistics_cache_valid = false;
    lifecycle = LifecycleState.stopped;
    stop_requested = false;
    worker_active = false;
    source = record {
      source_started = false;
      source_ownership = no_owner;
      source_stop_called = false;
      partial_cleanup_attempts = 0;
      source_stop_result = ResultCode.ok;
      source_stop_retry_supported = false;
    };
  }

  -- What goes on beside the controller: the worker during the measured time and during a delay of
  -- the stop, and what the hooks and the trace record from their beginning to their end.
  pub record Beside : Type 0 where
    pub worker : Runtime (surroundings P H) → Runtime (surroundings P H)
    pub waited : Runtime (surroundings P H) → Runtime (surroundings P H)
    pub hooked : IdleHooks → IdleHooks
    pub traced : Trace → Trace

  abbrev pub runtime_now : Runtime (surroundings P H) → Runtime (surroundings P H) × ℕ
  runtime_now r = let (f, now) = read_now P r.world in (record r { world = f }, now)

  -- configure and start, and whether the runtime runs.
  unfoldable pub started_run : Runtime (surroundings P H) → Runtime (surroundings P H) × Bool
  started_run r =
      let (r1, configured) = configure (surroundings P H) measuring_config r in
      let (r2, started) = start (surroundings P H) r1 in
      if is_ok configured then (r2, is_ok started) else (r1, false)

  -- The figures of the run, and the row or the error.
  unfoldable pub measured :
      Bool
      → Beside
      → Scenario
      → Bool
      → ℕ
      → P.World
      → IdleHooks
      → Trace
      → Runtime (surroundings P H) × IdleHooks × Trace × Printed
  measured scheduler_trace B scenario timing repeat world idle trace =
      let (r, started) = runtime_now (new_runtime (new_fixture P world scenario timing)) in
      let idle1 = B.hooked (begin_idle started idle) in
      let trace1 = B.traced (baseline_trace_begin scheduler_trace trace) in
      let (r1, running) = started_run r in
      let (r2, stopping) = runtime_now (if running then B.worker r1 else r1) in
      let (r3, result) = stop (surroundings P H) B.waited false r2 in
      let (r4, stopped) = runtime_now r3 in
      let (r5, idle_end) = runtime_now r4 in
      let (idle2, run) =
        end_idle idle_end
          (record {
            elapsed_us = sub64 stopped started;
            stop_us = sub64 stopped stopping;
            idle_calls = 0 ∷ 0 ∷ [];
            maximum_idle_gap_us = 0 ∷ 0 ∷ [];
            residency = no_residency;
            watchdog_events = 0;
          })
          idle1 in
      let (r6, trace_end) = runtime_now r5 in
      let (trace2, residency) = baseline_trace_end trace_end trace1 in
      let whole = record run {
        residency = residency;
        watchdog_events = baseline_watchdog_events trace2;
      } in
      (
        r6,
        idle2,
        trace2,
        if running && is_ok result
            then row (print_run P "esp32" scenario repeat r6.world whole)
            else baseline_error scenario.name result,
      )

  on_world-Consistent :
      (f : Fixture P) (r : Runtime (surroundings P H))
      → Consistent (surroundings P H) r
      → Consistent (surroundings P H) (record r { world = f })
  on_world-Consistent f r c = ground arith

  new_runtime-Consistent : (f : Fixture P) → Consistent (surroundings P H) (new_runtime f)
  new_runtime-Consistent f =
      let free : Free (new_runtime f).source = record {
        not_started = refl;
        unowned = refl;
        not_called = refl;
        settled = refl;
      } in
      record {
        idle = refl;
        source = inl free;
        stopped = λ st. (free, refl);
        no_worker = λ p. refl;
        retried = λ o called. absurd cc;
      }

  started_run-Consistent :
      (r : Runtime (surroundings P H))
      → Consistent (surroundings P H) r
      → Consistent (surroundings P H) (started_run r).0
  unfolding started_run
  started_run-Consistent r c =
      let (r1, configured) = configure (surroundings P H) measuring_config r in
      let c1 = configure-Consistent (surroundings P H) measuring_config r c in
      if_elim (λ (s : Runtime (surroundings P H) × Bool). Consistent (surroundings P H) s.0)
        (is_ok configured) (start-Consistent (surroundings P H) r1 c1) c1

  -- The runtime is stopped, owns nothing and has no worker.
  abbrev pub Released : Runtime (surroundings P H) → Type 0
  Released r = (r.lifecycle ≡ LifecycleState.stopped) × Free r.source × (r.worker_active ≡ false)

  stop-Released :
      (waited : Runtime (surroundings P H) → Runtime (surroundings P H))
      (r : Runtime (surroundings P H))
      → IsWorkerLike (surroundings P H) waited
      → Consistent (surroundings P H) r
      → let (r', result) = stop (surroundings P H) waited false r in
        result ≡ ResultCode.ok → Released r'
  stop-Released waited r l c ok = elim (stop-Stopped (surroundings P H) waited r l c).1 [
    | inl (st, e) ↦ absurd cc
    | inr (ne, inl (_, st, off, free), c') ↦ (st, free, off)
    | inr (ne, inr (inl (late, _)), c') ↦ absurd cc
    | inr (ne, inr (inr (bad, _)), c') ↦ absurd cc
  ]

  -- What a measurement prints of a runtime.
  abbrev pub Prints : String → Runtime (surroundings P H) → Printed → Type 0
  Prints name r (row cells) = Released r
  Prints name r (baseline_error failed result) = failed ≡ name

  printed-Prints :
      (name : String) (r : Runtime (surroundings P H)) (running : Bool) (result : ResultCode)
      (cells : List Cell)
      → (result ≡ ResultCode.ok → Released r)
      → Prints name r (if running && is_ok result then row cells else baseline_error name result)
  printed-Prints name r running result cells released =
      elim (Bool-cases (running && is_ok result)) [
        | inl ok ↦ let done : result ≡ ResultCode.ok = ground arith in rw ok (released done)
        | inr failed ↦ rw failed refl
      ]

  -- A measurement prints the row of a run only when the runtime has been stopped, owns nothing of the
  -- source and has no worker, so that the counters that the row reads stand still; otherwise it
  -- prints the error of its scenario. The worker is one that does only what a stop relies on.
  pub measured_lem :
      (scheduler_trace : Bool) (B : Beside) (scenario : Scenario) (timing : Bool) (repeat : ℕ)
      (world : P.World) (idle : IdleHooks) (trace : Trace)
      → IsWorkerLike (surroundings P H) B.worker
      → IsWorkerLike (surroundings P H) B.waited
      → let (r, idle', trace', printed) =
          measured scheduler_trace B scenario timing repeat world idle trace in
        Prints scenario.name r printed
  unfolding measured
  measured_lem scheduler_trace B scenario timing repeat world idle trace works waits =
      let f = new_fixture P world scenario timing in
      let (r, began) = runtime_now (new_runtime f) in
      let c = on_world-Consistent r.world (new_runtime f) (new_runtime-Consistent f) in
      let (r1, running) = started_run r in
      let c1 = started_run-Consistent r c in
      let worked : Runtime (surroundings P H) = if running then B.worker r1 else r1 in
      let c2 : Consistent (surroundings P H) worked =
        if_elim (λ s. Consistent (surroundings P H) s) running
          (worker-Consistent (surroundings P H) B.worker r1 works c1) c1 in
      let (r2, stopping) = runtime_now worked in
      let released = stop-Released B.waited r2 waits (on_world-Consistent r2.world worked c2) in
      let (r3, result) = stop (surroundings P H) B.waited false r2 in
      let (r4, stopped) = runtime_now r3 in
      let (r5, idle_end) = runtime_now r4 in
      let (r6, trace_end) = runtime_now r5 in
      printed-Prints scenario.name r6 running result _ released
