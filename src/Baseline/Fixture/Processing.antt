-- ===== src/Baseline/Fixture/Processing.antt =====
-- tools/runtime_baseline/fixture.hpp: Processor and Observer.
use esp32_vehicle_can_core.Prelude.{
  ℕ, zero, suc, ◌+◌, not, ◌||◌, ◌==◌, if◌then◌else◌, u32, u64, sub64,
}
use esp32_vehicle_can_core.VehicleCore.Frame.{RawCanFrame}
use esp32_vehicle_can_core.Telemetry.Types.{ProcessStatus, TransportDiagnostics}
use esp32_vehicle_can_core.Baseline.Metrics.{add_cost, sample_segment}
use esp32_vehicle_can_core.Baseline.Fixture.{Platform, Scenario, Fixture, read_now}

unfoldable pub classify : Scenario → RawCanFrame → ProcessStatus
classify config frame =
    if not config.mixed || frame.identifier == 0
    then ProcessStatus.processed
    else if frame.identifier == 1
    then ProcessStatus.ignored
    else ProcessStatus.malformed

module _ (P : Platform) where
  -- `metrics_.timing ? platform_.now() : 0`
  abbrev pub timed_now : Fixture P → Fixture P × ℕ
  timed_now f = let (f1, now) = read_now P f in if f.metrics.timing then (f1, now) else (f, 0)

  unfoldable pub reset : Fixture P → Fixture P
  reset f = record f { checksum = P.half }

  -- The sixteen rounds of the checksum, from round `i` on.
  unfoldable pub checksum_rounds : ℕ → ℕ → ℕ → P.Float → P.Float
  checksum_rounds zero i identifier c = c
  checksum_rounds (suc remaining) i identifier c =
      checksum_rounds remaining (i + 1) identifier (P.blend c (u32 (identifier + i)))

  unfoldable pub tally : ProcessStatus → RawCanFrame → Fixture P → Fixture P
  tally ProcessStatus.processed frame f =
      let m = f.metrics in
      let (w, running, affinity) =
        P.after_float m.running_core_after_float m.affinity_after_float f.world in
      record f {
        world = w;
        checksum = checksum_rounds 16 0 frame.identifier f.checksum;
        metrics = record m {
          running_core_after_float = running;
          affinity_after_float = affinity;
          processed = u64 (m.processed + 1);
        };
      }
  tally ProcessStatus.ignored frame f =
      let m = f.metrics in record f { metrics = record m { ignored = u64 (m.ignored + 1) } }
  tally _ frame f =
      let m = f.metrics in record f { metrics = record m { malformed = u64 (m.malformed + 1) } }

  unfoldable pub process : RawCanFrame → Fixture P → Fixture P × ProcessStatus
  process frame f =
      let (f1, before) = timed_now f in
      let status = classify f1.config frame in
      let f2 = tally status frame f1 in
      let m = f2.metrics in
      let f3 = record f2 {
        world = P.busy f2.config.processor_work_us f2.world;
        metrics = record m { segment_frames = u64 (m.segment_frames + 1) };
      } in
      let (f4, now) = read_now P f3 in
      let m4 = f4.metrics in
      (
        if f3.metrics.timing
            then record f4 {
              metrics = record m4 {
                processor_cost = add_cost (sub64 now before) m4.processor_cost;
              };
            }
            else f3,
        status,
      )

  unfoldable pub on_frame_processed : RawCanFrame → ProcessStatus → Fixture P → Fixture P
  on_frame_processed frame result f =
      let (f1, before) = timed_now f in
      let f2 = record f1 { world = P.busy f1.config.observer_work_us f1.world } in
      let (f3, now) = read_now P f2 in
      let m = f3.metrics in
      if f2.metrics.timing
      then record f3 {
        metrics = record m {
          frame_observer_cost = add_cost (sub64 now before) m.frame_observer_cost;
        };
      }
      else f2

  unfoldable pub on_diagnostics : TransportDiagnostics → Fixture P → Fixture P
  on_diagnostics diagnostics f =
      let (f1, before) = timed_now f in
      let m1 = f1.metrics in
      let f2 = record f1 {
        world = P.busy f1.config.observer_work_us f1.world;
        metrics = record m1 { last_diagnostics = diagnostics };
      } in
      let (f3, now) = read_now P f2 in
      let m3 = f3.metrics in
      let f4 =
        if f2.metrics.timing
        then record f3 {
          metrics = record m3 {
            diagnostic_observer_cost = add_cost (sub64 now before) m3.diagnostic_observer_cost;
          };
        }
        else f2 in
      let (f5, sampled) = timed_now f4 in record f5 { metrics = sample_segment sampled f5.metrics }
