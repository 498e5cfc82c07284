-- ===== src/Baseline/Metrics.antt =====
-- tools/runtime_baseline/fixture.hpp: Cost and Metrics, the aggregates of a measured run. All
-- numbers are uint64_t.
use esp32_vehicle_can_core.Prelude.{
  ℕ, ◌+◌, Bool, true, false, not, ◌&&◌, List, replicate, if◌then◌else◌, u64, sub64,
}
use esp32_vehicle_can_core.Telemetry.Types.{TransportDiagnostics}
use esp32_vehicle_can_core.Telemetry.Runtime.{no_diagnostics}
use esp32_vehicle_can_core.Baseline.Queue.{max}

pub record Cost : Type 0 where
  pub count : ℕ
  pub total_us : ℕ
  pub maximum_us : ℕ

abbrev pub no_cost : Cost
no_cost = record { count = 0; total_us = 0; maximum_us = 0 }

unfoldable pub add_cost : ℕ → Cost → Cost
add_cost us c = record {
  count = u64 (c.count + 1);
  total_us = u64 (c.total_us + us);
  maximum_us = max c.maximum_us us;
}

pub record Metrics : Type 0 where
  pub receive_cost : Cost
  pub source_wait_cost : Cost
  pub processor_cost : Cost
  pub frame_observer_cost : Cost
  pub diagnostic_observer_cost : Cost
  pub processed : ℕ
  pub ignored : ℕ
  pub malformed : ℕ
  pub source_waits : ℕ
  pub maximum_frames_between_waits : ℕ
  pub maximum_checkpoint_span_us : ℕ
  pub running_core_after_float : List ℕ
  pub affinity_after_float : List ℕ
  pub last_diagnostics : TransportDiagnostics
  pub timing : Bool
  pub segment_active : Bool
  pub segment_started_us : ℕ
  pub segment_frames : ℕ

-- `Metrics{}`, with the `timing` that the fixture sets.
abbrev pub no_metrics : Bool → Metrics
no_metrics timing = record {
  receive_cost = no_cost;
  source_wait_cost = no_cost;
  processor_cost = no_cost;
  frame_observer_cost = no_cost;
  diagnostic_observer_cost = no_cost;
  processed = 0;
  ignored = 0;
  malformed = 0;
  source_waits = 0;
  maximum_frames_between_waits = 0;
  maximum_checkpoint_span_us = 0;
  running_core_after_float = replicate 2 0;
  affinity_after_float = replicate 2 0;
  last_diagnostics = no_diagnostics;
  timing = timing;
  segment_active = false;
  segment_started_us = 0;
  segment_frames = 0;
}

unfoldable pub frames : Metrics → ℕ
frames m = u64 (u64 (m.processed + m.ignored) + m.malformed)

unfoldable pub begin_segment : ℕ → Metrics → Metrics
begin_segment now m =
    if not m.segment_active then record m { segment_active = true; segment_started_us = now } else m

unfoldable pub sample_segment : ℕ → Metrics → Metrics
sample_segment now m = record m {
  maximum_frames_between_waits = max m.maximum_frames_between_waits m.segment_frames;
  maximum_checkpoint_span_us =
      if m.timing && m.segment_active
      then max m.maximum_checkpoint_span_us (sub64 now m.segment_started_us)
      else m.maximum_checkpoint_span_us;
}

unfoldable pub checkpoint : ℕ → Metrics → Metrics
unfolding sample_segment
checkpoint now m =
    let m1 = sample_segment now m in
    record m1 {
      segment_active = false;
      segment_frames = 0;
      source_waits = u64 (m1.source_waits + 1);
    }
