-- ===== src/Arduino/ReceiveOnly.antt =====
-- The source, the processor and the observer of examples/arduino/ReceiveOnlyRuntime. The runtime's
-- clocks and task creation are a parameter, with what other tasks do while a call of the bus waits.
use esp32_vehicle_can_core.Prelude.{ℕ, ◌+◌, Bool, Option, none, some, u64}
use esp32_vehicle_can_core.VehicleCore.Frame.{RawCanFrame}
use esp32_vehicle_can_core.VehicleCore.Health.{Reading, Availability, ValidationStatus}
use esp32_vehicle_can_core.CanBus.Ring.{no_frame}
use esp32_vehicle_can_core.CanBus.Platform.{Platform}
use esp32_vehicle_can_core.CanBus.Acquisition.{Bus}
use esp32_vehicle_can_core.Telemetry.Types.{ReceiveStatus, ProcessStatus}
use esp32_vehicle_can_core.Telemetry.Source
use esp32_vehicle_can_core.Telemetry.Source.{CanBusSource}
use esp32_vehicle_can_core.Telemetry.Runtime.{Surroundings}
use esp32_vehicle_can_core.Bench.Binding.{TwaiMode, listen_only, GeneralConfig}

-- `driver_default` stands for TWAI_GENERAL_CONFIG_DEFAULT.
unfoldable pub configure_listen_only :
    (ℕ → ℕ → TwaiMode → GeneralConfig) → GeneralConfig → GeneralConfig
configure_listen_only general_config_default configuration =
    record (general_config_default 27 26 listen_only) { tx_queue_len = 0 }

-- The objects of the sketch: the source with its bus, and the observer's count.
pub record Sketch (P : Platform) : Type 0 where
  pub bus_source : CanBusSource P
  pub count : ℕ

pub record Clocks (P : Platform) : Type 0 where
  pub clock_now : P.World → P.World × ℕ
  pub system_now : P.World → P.World × ℕ
  pub create_task : P.World → P.World × Bool
  pub tick_rate_hz : ℕ
  pub beside : Bus P → Bus P

module _ (P : Platform) (C : Clocks P) where
  abbrev on_source {ℓ} :
      {A : Type ℓ} → (CanBusSource P → CanBusSource P × A) → Sketch P → Sketch P × A
  on_source call s = let (b, a) = call s.bus_source in (record s { bus_source = b }, a)

  abbrev on_world {ℓ} : {A : Type ℓ} → (P.World → P.World × A) → Sketch P → Sketch P × A
  on_world call s =
      let source = s.bus_source in
      let bus = source.bus in
      let (w, a) = call bus.world in
      (record s { bus_source = record source { bus = record bus { world = w } } }, a)

  abbrev frame_or_none : Option RawCanFrame → RawCanFrame
  frame_or_none none = no_frame
  frame_or_none (some f) = f

  unfoldable pub receive : ℕ → Sketch P → Sketch P × ReceiveStatus × RawCanFrame
  receive timeout_ms s =
      let (b, status, frame) = Source.receive P C.beside s.bus_source in
      (record s { bus_source = b }, status, frame_or_none frame)

  -- Processor::process
  unfoldable pub process : RawCanFrame → Sketch P → Sketch P × ProcessStatus
  process frame s = (s, ProcessStatus.processed)

  -- CountObserver::on_frame_processed
  unfoldable pub on_frame_processed : RawCanFrame → ProcessStatus → Sketch P → Sketch P
  on_frame_processed frame result s = record s { count = u64 (s.count + 1) }

  -- CountObserver::reset
  unfoldable pub reset_observer : Sketch P → Sketch P
  reset_observer s = record s { count = 0 }

  -- CountObserver::count
  unfoldable pub observed : Sketch P → Reading ℕ
  observed s = record {
    value = some s.count;
    availability = Availability.freshness_unverified;
    validation = ValidationStatus.observed;
  }

  -- `Runtime runtime{source, processor, observer}`
  abbrev pub surroundings : Surroundings
  surroundings = record {
    World = Sketch P;
    supports_stop_retry = λ s. Source.supports_stop_retry P s.bus_source;
    source_start = on_source (Source.start P C.beside);
    source_stop = on_source (Source.stop P C.beside);
    source_retry_stop = on_source (Source.retry_stop P C.beside);
    source_receive = receive;
    source_statistics = on_source (Source.statistics P);
    processor_reset = λ s. s;
    process = process;
    on_frame_processed = on_frame_processed;
    on_diagnostics = λ d s. s;
    clock_now = on_world C.clock_now;
    system_now = on_world C.system_now;
    create_task = on_world C.create_task;
    tick_rate_hz = C.tick_rate_hz;
  }
