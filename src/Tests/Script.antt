-- ===== src/Tests/Script.antt =====
-- A scripted source, processor and clock for the telemetry runtime.
use esp32_vehicle_can_core.Prelude.{ℕ, ◌+◌, refl, inl, inr, Bool, true, false}
use esp32_vehicle_can_core.CanBus.Ring.{no_frame}
use esp32_vehicle_can_core.Telemetry.Types.{
  ResultCode, LifecycleState, ReceiveStatus, ProcessStatus,
}
use esp32_vehicle_can_core.Telemetry.Runtime.{
  Surroundings, no_owner, successful_start, Runtime, no_diagnostics, no_statistics,
}
use esp32_vehicle_can_core.Telemetry.Runtime.Ownership.{Free, Consistent}
use esp32_vehicle_can_core.Tests.Telemetry.{tight}

pub record Script : Type 0 where
  pub starts : ResultCode
  pub stops : ResultCode
  pub retries : Bool
  pub receives : ReceiveStatus
  pub processes : ProcessStatus
  pub stop_calls : ℕ
  pub now : ℕ

abbrev pub scripted : Surroundings
scripted = record {
  World = Script;
  supports_stop_retry = λ w. w.retries;
  source_start = λ w. (w, w.starts);
  source_stop = λ w. (record w { stop_calls = w.stop_calls + 1 }, w.stops);
  source_retry_stop = λ w. (record w { stop_calls = w.stop_calls + 1 }, w.stops);
  source_receive = λ t w. (w, w.receives, no_frame);
  source_statistics = λ w. (w, no_statistics);
  processor_reset = λ w. w;
  process = λ f w. (w, w.processes);
  on_frame_processed = λ f s w. w;
  on_diagnostics = λ d w. w;
  clock_now = λ w. (record w { now = w.now + 10 }, w.now);
  system_now = λ w. (w, w.now);
  create_task = λ w. (w, true);
  tick_rate_hz = 100;
}

abbrev pub kind : Script
kind = record {
  starts = ResultCode.ok;
  stops = ResultCode.ok;
  retries = false;
  receives = ReceiveStatus.frame;
  processes = ProcessStatus.processed;
  stop_calls = 0;
  now = 1000;
}

abbrev pub idle : Script → Runtime scripted
idle w = record {
  world = w;
  lifecycle_operation_active = false;
  config = tight;
  diagnostics = no_diagnostics;
  acquisition_statistics_cache = no_statistics;
  acquisition_statistics_sample_us = 0;
  acquisition_statistics_cache_valid = false;
  lifecycle = LifecycleState.stopped;
  stop_requested = false;
  worker_active = false;
  source = record {
    source_started = false;
    source_ownership = no_owner;
    source_stop_called = false;
    partial_cleanup_attempts = 0;
    source_stop_result = ResultCode.ok;
    source_stop_retry_supported = false;
  };
}

pub idle-Free : (w : Script) → Free (idle w).source
idle-Free w = record { not_started = refl; unowned = refl; not_called = refl; settled = refl }

pub idle-Consistent : (w : Script) → Consistent scripted (idle w)
idle-Consistent w = record {
  idle = refl;
  source = inl (idle-Free w);
  stopped = λ st. (idle-Free w, refl);
  no_worker = λ p. refl;
  retried = λ o c. absurd cc;
}

abbrev pub active : Script → Runtime scripted
active w = record (idle w) {
  lifecycle = LifecycleState.running;
  worker_active = true;
  source = record {
    source_started = true;
    source_ownership = successful_start;
    source_stop_called = false;
    partial_cleanup_attempts = 0;
    source_stop_result = ResultCode.ok;
    source_stop_retry_supported = false;
  };
}

pub active-Consistent : (w : Script) → Consistent scripted (active w)
active-Consistent w = record {
  idle = refl;
  source = inr (inl (record { started = refl; owned = refl }));
  stopped = λ st. absurd cc;
  no_worker = λ p. absurd cc;
  retried = λ o c. absurd cc;
}
