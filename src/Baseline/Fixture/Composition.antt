-- ===== src/Baseline/Fixture/Composition.antt =====
-- The telemetry runtime with the source, the processor and the observer of
-- tools/runtime_baseline/fixture.hpp: what the counters of both say of the frames generated.
use esp32_vehicle_can_core.Prelude.{ℕ, ◌+◌, ◌≡◌, inl, inr, Bool, false, arith, Bool-cases, u64}
use esp32_vehicle_can_core.VehicleCore.Frame.{RawCanFrame}
use esp32_vehicle_can_core.Telemetry.Types.{ResultCode, ProcessStatus, TransportDiagnostics}
use esp32_vehicle_can_core.Telemetry.Runtime.{Surroundings, count_result}
use esp32_vehicle_can_core.Baseline.Metrics.{Metrics, sample_segment}
use esp32_vehicle_can_core.Baseline.Fixture.{Platform, Scenario, Fixture}
use esp32_vehicle_can_core.Baseline.Fixture.Receiving.{Same}
use esp32_vehicle_can_core.Baseline.Fixture.Source.{start, stop, receive, statistics}
use esp32_vehicle_can_core.Baseline.Fixture.Processing.{
  reset, classify, tally, process, on_frame_processed, on_diagnostics,
}

-- The runtime's own clocks and tasks come from the platform it runs on, too.
pub record Host (P : Platform) : Type 0 where
  pub clock_now : P.World → P.World × ℕ
  pub system_now : P.World → P.World × ℕ
  pub create_task : P.World → P.World × Bool
  pub tick_rate_hz : ℕ

module _ (P : Platform) (H : Host P) where
  abbrev on_world {ℓ} : {A : Type ℓ} → (P.World → P.World × A) → Fixture P → Fixture P × A
  on_world call f = let (w, a) = call f.world in (record f { world = w }, a)

  -- `Runtime{fixture.source, fixture.processor, fixture.observer}`; the source leaves the retry of a
  -- stop as AcquisitionSource declares it.
  abbrev pub surroundings : Surroundings
  surroundings = record {
    World = Fixture P;
    supports_stop_retry = λ f. false;
    source_start = start P;
    source_stop = stop P;
    source_retry_stop = λ f. (f, ResultCode.invalid_state);
    source_receive = receive P;
    source_statistics = λ f. (f, statistics P f);
    processor_reset = reset P;
    process = process P;
    on_frame_processed = on_frame_processed P;
    on_diagnostics = on_diagnostics P;
    clock_now = on_world H.clock_now;
    system_now = on_world H.system_now;
    create_task = on_world H.create_task;
    tick_rate_hz = H.tick_rate_hz;
  }

-- What handling a frame adds to the counters.
abbrev pub Counts : ProcessStatus → Metrics → Metrics → Type 0
Counts ProcessStatus.processed m m' =
    (m'.processed ≡ u64 (m.processed + 1)) × (m'.ignored ≡ m.ignored) × (m'.malformed ≡ m.malformed)
Counts ProcessStatus.ignored m m' =
    (m'.processed ≡ m.processed) × (m'.ignored ≡ u64 (m.ignored + 1)) × (m'.malformed ≡ m.malformed)
Counts ProcessStatus.malformed m m' =
    (m'.processed ≡ m.processed) × (m'.ignored ≡ m.ignored) × (m'.malformed ≡ u64 (m.malformed + 1))
Counts ProcessStatus.fault m m' = ⊥

-- The runtime and the processor count alike.
abbrev pub Agrees : TransportDiagnostics → Metrics → Type 0
Agrees d m =
    (d.frames_processed ≡ m.processed)
    × (d.frames_ignored ≡ m.ignored)
    × (d.frames_malformed ≡ m.malformed)

pub count_result-Agrees :
    (status : ProcessStatus) (d : TransportDiagnostics) (m m' : Metrics)
    → Counts status m m'
    → Agrees d m
    → Agrees (count_result status d) m'
unfolding count_result
count_result-Agrees ProcessStatus.processed d m m' c a = omega arith
count_result-Agrees ProcessStatus.ignored d m m' c a = omega arith
count_result-Agrees ProcessStatus.malformed d m m' c a = omega arith
count_result-Agrees ProcessStatus.fault d m m' c a = absurd c

pub Counts-add :
    (status : ProcessStatus) (m m' : Metrics)
    → Counts status m m'
    → u64 (m'.processed + m'.ignored + m'.malformed)
      ≡ u64 (m.processed + m.ignored + m.malformed + 1)
Counts-add ProcessStatus.processed m m' c = omega arith
Counts-add ProcessStatus.ignored m m' c = omega arith
Counts-add ProcessStatus.malformed m m' c = omega arith
Counts-add ProcessStatus.fault m m' c = absurd c

module _ (P : Platform) where
  tally-Counts :
      (config : Scenario) (frame : RawCanFrame) (f : Fixture P)
      → let f' = tally P (classify config frame) frame f in
        Counts (classify config frame) f.metrics f'.metrics × (f'.source ≡ f.source)
  unfolding classify tally
  tally-Counts config frame f = ground arith

  pub process-Counts :
      (frame : RawCanFrame) (f : Fixture P)
      → let (f', status) = process P frame f in
        Counts status f.metrics f'.metrics × (f'.source ≡ f.source)
  unfolding process
  process-Counts frame f = elim (Bool-cases f.metrics.timing) [
    | inl e ↦ ground (arith, tally-Counts f.config frame (record f { world = (P.now f.world).0 }))
    | inr e ↦ ground (arith, tally-Counts f.config frame f)
  ]

  pub on_frame_processed-Same :
      (frame : RawCanFrame) (status : ProcessStatus) (f : Fixture P)
      → let f' = on_frame_processed P frame status f in
        Same f.metrics f'.metrics × (f'.source ≡ f.source)
  unfolding on_frame_processed
  on_frame_processed-Same frame status f = ground arith

  pub on_diagnostics-Same :
      (d : TransportDiagnostics) (f : Fixture P)
      → let f' = on_diagnostics P d f in Same f.metrics f'.metrics × (f'.source ≡ f.source)
  unfolding on_diagnostics sample_segment
  on_diagnostics-Same d f = ground arith
