-- ===== src/Arduino/Harness.antt =====
-- The source, the processor and the observer of examples/arduino/RuntimeSyntheticHarness, and how the
-- sketch prepares a case. An operation is one step; the checks themselves and what is printed are left
-- out.
use esp32_vehicle_can_core.Prelude.{
  ℕ, ◌+◌, Bool, true, false, not, [], ◌∷◌, ltb, ◌==◌, if◌then◌else◌, u32, sub32,
}
use esp32_vehicle_can_core.VehicleCore.Frame.{RawCanFrame, standard}
use esp32_vehicle_can_core.Telemetry.Types.{
  ResultCode, is_ok, ReceiveStatus, ProcessStatus, AcquisitionStatistics, TransportDiagnostics,
  RuntimeConfig,
}
use esp32_vehicle_can_core.Telemetry.Runtime.{Surroundings, Runtime, no_statistics}
use esp32_vehicle_can_core.Telemetry.Runtime.Control.{configure, start}
use esp32_vehicle_can_core.Arduino.Control.{stop_checked}
use esp32_vehicle_can_core.Telemetry.Types.{default_config}

-- What the board offers: delays, clocks and task creation.
pub record Board : Type 1 where
  pub World : Type 0
  pub delay : ℕ → World → World
  pub millis : World → World × ℕ
  pub esp_timer_get_time : World → World × ℕ
  pub clock_now : World → World × ℕ
  pub system_now : World → World × ℕ
  pub create_task : World → World × Bool
  pub tick_rate_hz : ℕ

pub data Input : Type 0 where
  silence frames one_frame fault : Input

pub record SyntheticSource : Type 0 where
  pub input : Input
  pub fail_start : Bool
  pub fail_stop_once : Bool
  pub running : Bool
  pub calls : ℕ
  pub frame_count : ℕ
  pub stops : ℕ
  pub retries : ℕ

pub record SyntheticProcessor : Type 0 where
  pub fail : Bool
  pub processed : ℕ

pub record SyntheticObserver : Type 0 where
  pub delay_ms : ℕ
  pub completed : ℕ
  pub diagnostic_calls : ℕ
  pub max_us : ℕ
  pub active : Bool

-- The three objects that the runtime borrows, and the board.
pub record Harness (P : Board) : Type 0 where
  pub world : P.World
  pub source : SyntheticSource
  pub processor : SyntheticProcessor
  pub observer : SyntheticObserver

-- `RawCanFrame{}`
abbrev pub generic_frame : RawCanFrame
generic_frame = record {
  timestamp_us = 0;
  bus_id = 0;
  identifier = 0;
  identifier_format = standard;
  remote_request = false;
  dlc = 0;
  data_bytes = 0 ∷ 0 ∷ 0 ∷ 0 ∷ 0 ∷ 0 ∷ 0 ∷ 0 ∷ [];
}

unfoldable pub source_start : SyntheticSource → SyntheticSource × ResultCode
source_start s =
    let reset = record s { calls = 0; frame_count = 0; stops = 0; retries = 0 } in
    if s.fail_start
    then (reset, ResultCode.faulted)
    else (record reset { running = true }, ResultCode.ok)

unfoldable pub source_stop : SyntheticSource → SyntheticSource × ResultCode
source_stop s = (
  record s { running = false; stops = u32 (s.stops + 1) },
  if s.fail_stop_once then ResultCode.timeout else ResultCode.ok,
)

unfoldable pub source_retry_stop : SyntheticSource → SyntheticSource × ResultCode
source_retry_stop s = (record s { running = false; retries = u32 (s.retries + 1) }, ResultCode.ok)

abbrev pub is_fault_input : Input → Bool
is_fault_input fault = true
is_fault_input _ = false

-- Whether `receive` hands out a frame.
unfoldable pub gives_frame : Input → ℕ → Bool
gives_frame frames n = true
gives_frame one_frame n = n == 0
gives_frame _ n = false

unfoldable pub observer_reset : SyntheticObserver → SyntheticObserver
observer_reset o = record o { completed = 0; diagnostic_calls = 0; max_us = 0; active = false }

module _ (P : Board) where
  unfoldable pub receive : ℕ → Harness P → Harness P × ReceiveStatus × RawCanFrame
  receive timeout_ms h =
      let s = h.source in
      let called = record s { calls = u32 (s.calls + 1) } in
      let h1 = record h { source = called } in
      if not s.running
      then (h1, ReceiveStatus.not_started, generic_frame)
      else if is_fault_input s.input
      then (h1, ReceiveStatus.fault, generic_frame)
      else if gives_frame s.input s.frame_count
      then (
        record h { source = record called { frame_count = u32 (s.frame_count + 1) } },
        ReceiveStatus.frame,
        generic_frame,
      )
      else (record h1 { world = P.delay timeout_ms h.world }, ReceiveStatus.timeout, generic_frame)

  abbrev pub statistics : Harness P → AcquisitionStatistics
  statistics h = record no_statistics { frames_received = h.source.frame_count }

  unfoldable pub process : RawCanFrame → Harness P → Harness P × ProcessStatus
  process frame h =
      let p = h.processor in
      (
        record h { processor = record p { processed = u32 (p.processed + 1) } },
        if p.fail then ProcessStatus.fault else ProcessStatus.processed,
      )

  -- `active` is true during the delay, which is inside this step.
  unfoldable pub on_frame_processed : RawCanFrame → ProcessStatus → Harness P → Harness P
  on_frame_processed frame result h =
      let o = h.observer in
      let (w, began) = P.esp_timer_get_time h.world in
      let w1 = if o.delay_ms == 0 then w else P.delay o.delay_ms w in
      let (w2, now) = P.esp_timer_get_time w1 in
      let elapsed = sub32 (u32 now) (u32 began) in
      record h {
        world = w2;
        observer = record o {
          max_us = if ltb o.max_us elapsed then elapsed else o.max_us;
          completed = u32 (o.completed + 1);
          active = false;
        };
      }

  unfoldable pub on_diagnostics : TransportDiagnostics → Harness P → Harness P
  on_diagnostics d h =
      let o = h.observer in
      record h { observer = record o { diagnostic_calls = u32 (o.diagnostic_calls + 1) } }

  abbrev on_source {ℓ} :
      {A : Type ℓ} → (SyntheticSource → SyntheticSource × A) → Harness P → Harness P × A
  on_source call h = let (s, a) = call h.source in (record h { source = s }, a)

  abbrev on_world {ℓ} : {A : Type ℓ} → (P.World → P.World × A) → Harness P → Harness P × A
  on_world call h = let (w, a) = call h.world in (record h { world = w }, a)

  abbrev processor_reset : Harness P → Harness P
  processor_reset h = let p = h.processor in record h { processor = record p { processed = 0 } }

  -- `Runtime runtime{source, processor, observer}`
  abbrev pub surroundings : Surroundings
  surroundings = record {
    World = Harness P;
    supports_stop_retry = λ h. true;
    source_start = on_source source_start;
    source_stop = on_source source_stop;
    source_retry_stop = on_source source_retry_stop;
    source_receive = receive;
    source_statistics = λ h. (h, statistics h);
    processor_reset = processor_reset;
    process = process;
    on_frame_processed = on_frame_processed;
    on_diagnostics = on_diagnostics;
    clock_now = on_world P.clock_now;
    system_now = on_world P.system_now;
    create_task = on_world P.create_task;
    tick_rate_hz = P.tick_rate_hz;
  }

  -- What `begin_case` sets once the stop is complete.
  unfoldable pub prepare : Input → ℕ → Bool → Bool → Harness P → Harness P
  prepare input observer_delay processor_fault stop_fault h =
      let s = h.source in
      let p = h.processor in
      let o = h.observer in
      record h {
        source = record s { input = input; fail_start = false; fail_stop_once = stop_fault };
        processor = record p { fail = processor_fault };
        observer = observer_reset (record o { delay_ms = observer_delay });
      }

  abbrev pub case_config : RuntimeConfig
  case_config = record default_config {
    receive_timeout_ms = 5;
    transport_silence_timeout_us = 20000;
  }

  module _ (others : Runtime surroundings → Runtime surroundings) where
    unfoldable pub begin_case :
        Input → ℕ → Bool → Bool → Runtime surroundings → Runtime surroundings × Bool
    begin_case input observer_delay processor_fault stop_fault r =
        let (r1, stopped) = stop_checked surroundings others r in
        let r2 : Runtime surroundings = record r1 {
          world = prepare input observer_delay processor_fault stop_fault r1.world;
        } in
        let (r3, configured) = configure surroundings case_config r2 in
        let (r4, started) = start surroundings r3 in
        if not stopped
        then (r1, false)
        else if is_ok configured
        then (r4, is_ok started)
        else (r3, false)
