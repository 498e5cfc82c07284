-- ===== src/Tests/Runtime.antt =====
-- The telemetry runtime over the script of Tests/Script.
use esp32_vehicle_can_core.Prelude.{
  ℕ, ◌%◌, ◌==◌, ◌&&◌, if◌then◌else◌, arith, zero, suc, ◌+◌, ◌≤◌, ◌<◌, ◌≡◌, ◌≢◌, refl, ◌⊎◌, inl, inr,
  true, false, some,
}
use esp32_vehicle_can_core.VehicleCore.Health.{TransportHealth, live, timed_out}
use esp32_vehicle_can_core.CanBus.Ring.{no_frame}
use esp32_vehicle_can_core.Telemetry.Types.{ResultCode, LifecycleState, ProcessStatus}
use esp32_vehicle_can_core.Telemetry.Runtime.{
  Surroundings, SourceState, successful_start, Runtime, no_diagnostics, no_statistics,
  update_silence, read_diagnostics,
}
use esp32_vehicle_can_core.Telemetry.Runtime.Control.{stop}
use esp32_vehicle_can_core.Telemetry.Runtime.Ownership.{Free, Consistent}
use esp32_vehicle_can_core.Telemetry.Runtime.Stopping.{IsWorkerLike}
use esp32_vehicle_can_core.Telemetry.Runtime.Completing.{RetiresWithin, stop_completes}
use esp32_vehicle_can_core.Telemetry.Runtime.Shutdown.{shutdown, shutdown_releases}
use esp32_vehicle_can_core.Telemetry.Runtime.Loop.{handle_frame, task_entry}
use esp32_vehicle_can_core.Telemetry.Runtime.Reporting.{
  Advanced, read_diagnostics_lem, handle_frame_lem, task_entry_ends,
}
use esp32_vehicle_can_core.Telemetry.Runtime.Pausing.{PausesIn, run_loop_pauses}
use esp32_vehicle_can_core.Tests.Telemetry.{tight, f_tight}
use esp32_vehicle_can_core.Tests.Script.{Script, scripted, kind, idle, active}

-- A source that fails half-way.
abbrev half : Script
half = record kind { starts = ResultCode.faulted; stops = ResultCode.faulted }

-- The worker ends in the first delay of a stop.
abbrev retires : Runtime scripted → Runtime scripted
retires r = record r { worker_active = false }

abbrev heard : Runtime scripted
heard = record (active (record kind { now = 2000000 })) {
  diagnostics = record no_diagnostics { has_last_frame = true; last_frame_us = 1000000 };
}

f_silent : (read_diagnostics scripted heard).1.transport ≡ timed_out
unfolding read_diagnostics update_silence
f_silent = refl

read_diagnostics_lem_example :
    let d = (read_diagnostics scripted heard).1 in
    ((LifecycleState.running ≡ LifecycleState.running)
      × (true ≡ true)
      × (2000000 ≤ 2000000)
      × (d ≡ record (heard.diagnostics) { transport = timed_out }))
    ⊎ ((LifecycleState.running ≢ LifecycleState.running) × (d ≡ heard.diagnostics))
    ⊎ ((true ≡ false) × (d ≡ heard.diagnostics))
    ⊎ ((2000000 < 2000000) × (d ≡ heard.diagnostics))
read_diagnostics_lem_example = read_diagnostics_lem scripted heard

handle_frame_lem_example :
    let r' = handle_frame scripted no_frame 1000 heard in
    Advanced ProcessStatus.processed heard.diagnostics r'.diagnostics
    × (r'.diagnostics.has_last_frame ≡ true)
    × (r'.diagnostics.last_frame_us ≡ 1000)
    × (ProcessStatus.processed ≢ ProcessStatus.fault
        → (r'.diagnostics.transport ≡ live)
          × (r'.lifecycle ≡ heard.lifecycle)
          × (r'.stop_requested ≡ heard.stop_requested))
    × (ProcessStatus.processed ≡ ProcessStatus.fault
        → (r'.diagnostics.transport ≡ TransportHealth.faulted)
          × (r'.diagnostics.lifecycle ≡ LifecycleState.faulted)
          × (r'.lifecycle ≡ LifecycleState.faulted)
          × (r'.stop_requested ≡ true))
handle_frame_lem_example = handle_frame_lem scripted no_frame 1000 heard

-- Another task requests a stop in the third round.
abbrev asks : ℕ → Runtime scripted → Runtime scripted
asks zero r = record r { stop_requested = true }
asks (suc n) r = r

task_entry_ends_example :
    (r' : Runtime scripted) × (task_entry scripted asks 3 (active kind) ≡ some r')
    × (r'.worker_active ≡ false)
task_entry_ends_example = task_entry_ends scripted asks 2 (active kind) (λ r. refl)

-- A worker that nobody stops: of any four rounds one pauses.
run_loop_pauses_example :
    PausesIn scripted
      (λ fuel r. r)
      (λ fuel r. record { config = refl; pauses = refl })
      2
      4
      (active kind)
run_loop_pauses_example =
    run_loop_pauses scripted (λ fuel r. r) (λ fuel r. record { config = refl; pauses = refl }) 2 4
      (active kind) f_tight (omega arith)

-- The source of a second run fails to stop at first, and the retry succeeds.
abbrev unfinished : SourceState
unfinished = record {
  source_started = true;
  source_ownership = successful_start;
  source_stop_called = true;
  partial_cleanup_attempts = 0;
  source_stop_result = ResultCode.timeout;
  source_stop_retry_supported = true;
}

-- Surroundings in which the source always stops.
abbrev yielding : Surroundings
yielding = record scripted {
  source_stop = λ w. (w, ResultCode.ok);
  source_retry_stop = λ w. (w, ResultCode.ok);
}

abbrev to_retry : Runtime yielding
to_retry = record {
  world = kind;
  lifecycle_operation_active = false;
  config = tight;
  diagnostics = no_diagnostics;
  acquisition_statistics_cache = no_statistics;
  acquisition_statistics_sample_us = 0;
  acquisition_statistics_cache_valid = false;
  lifecycle = LifecycleState.stopping;
  stop_requested = true;
  worker_active = true;
  source = unfinished;
}

to_retry-Consistent : Consistent yielding to_retry
to_retry-Consistent = record {
  idle = refl;
  source = inr (inl (record { started = refl; owned = refl }));
  stopped = λ st. absurd cc;
  no_worker = λ p. absurd cc;
  retried = λ o c. refl;
}

-- A worker whose callback returns at a time that three divides, and that ends then if it is asked to.
abbrev slow : Runtime yielding → Runtime yielding
slow r =
    let w = r.world in
    if r.stop_requested && (w.now % 3 == 0)
    then record r { worker_active = false }
    else record r { world = record w { now = w.now + 1 } }

slow-IsWorkerLike : IsWorkerLike yielding slow
slow-IsWorkerLike = record {
  source = λ r. ground arith;
  operation = λ r. ground arith;
  fault = λ r. ground arith;
  inactive = λ r off. ground arith;
}

slow-RetiresWithin : RetiresWithin yielding slow 3
slow-RetiresWithin r asked = ground arith

stop_completes_example : (stop yielding slow false to_retry).1 ≡ ResultCode.ok
stop_completes_example =
    stop_completes yielding slow 3 to_retry slow-RetiresWithin (omega arith) to_retry-Consistent
      (record { started = refl; owned = refl }) (λ e. cc) (λ w. refl) (λ w. refl)

shutdown_releases_example :
    (r' : Runtime yielding) × (shutdown yielding slow 3 to_retry ≡ some r')
    × (r'.worker_active ≡ false)
    × Free r'.source
shutdown_releases_example =
    shutdown_releases yielding slow 3 to_retry slow-IsWorkerLike slow-RetiresWithin (λ w. refl)
      (λ w. refl) to_retry-Consistent (λ p none_supported. absurd cc)
