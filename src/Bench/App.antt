-- ===== src/Bench/App.antt =====
-- firmware/tcan485-bench-ack-only/main/main.cpp: app_main. The lines that it logs are left out but
-- for the summaries. `others` is what other tasks do while it waits or delays.
use esp32_vehicle_can_core.Prelude.{
  ℕ, zero, suc, ◌+◌, ◌^◌, Bool, true, false, ◌&&◌, Option, none, some, List, [], ◌∷◌, ltb,
  if◌then◌else◌, u32, u64, sub32,
}
use esp32_vehicle_can_core.VehicleCore.Frame.{RawCanFrame, is_extended}
use esp32_vehicle_can_core.CanBus.Types.{Result, Configuration}
use esp32_vehicle_can_core.CanBus.Ring.{no_frame}
use esp32_vehicle_can_core.CanBus.Platform.{Platform}
use esp32_vehicle_can_core.CanBus.Acquisition.{Bus}
use esp32_vehicle_can_core.CanBus.Acquisition.Start.{start}
use esp32_vehicle_can_core.CanBus.Acquisition.Stop.{receive, stop}
use esp32_vehicle_can_core.Bench.Board.{Call, Gpio, initialize, disable}

abbrev pub max_frames_per_batch : ℕ
max_frames_per_batch = 16

pub record FrameMetadata : Type 0 where
  pub extended : Bool
  pub identifier : ℕ
  pub dlc : ℕ
  pub bus_id : ℕ

unfoldable pub metadata_from : RawCanFrame → FrameMetadata
metadata_from f = record {
  extended = is_extended f;
  identifier = f.identifier;
  dlc = f.dlc;
  bus_id = f.bus_id;
}

-- `FrameMetadata{}`
abbrev no_metadata : FrameMetadata
no_metadata = record { extended = false; identifier = 0; dlc = 0; bus_id = 0 }

-- A line that log_frame_summary prints.
pub record Summary : Type 0 where
  pub total_count : ℕ
  pub interval : ℕ
  pub latest_frame : FrameMetadata

pub record App (P : Platform) : Type 0 where
  pub bus : Bus P
  pub calls : List Call
  pub received_count : ℕ
  pub interval_count : ℕ
  pub latest : FrameMetadata
  pub summary_deadline : ℕ
  pub summaries : List Summary

-- How app_main ends.
pub data Ending : Type 0 where
  board_refused : Ending
  start_failed : Result → Ending
  receive_failed : Result → Ending

abbrev pub configuration : Configuration
configuration = record { bitrate_bps = 500000; bus_id = 0 }

abbrev pub has_started : Result → Bool
has_started Result.ok = true
has_started _ = false

-- What an answer of `receive` makes of a batch: go on, end the batch, or end the loop.
pub data Verdict : Type 0 where
  next_frame end_batch : Verdict
  failure : Result → Verdict

unfoldable pub verdict : Result → Verdict
verdict Result.ok = next_frame
verdict Result.timeout = end_batch
verdict r = failure r

-- xTaskGetTickCount, the ticks of a second, and the tasks that run meanwhile.
pub record Scheduler (P : Platform) : Type 0 where
  pub tick_count : P.World → P.World × ℕ
  pub summary_period : ℕ
  pub others : Bus P → Bus P

module _ (P : Platform) (gpio : Gpio) (S : Scheduler P) where
  abbrev pub frame_of : Option RawCanFrame → RawCanFrame
  frame_of none = no_frame
  frame_of (some f) = f

  unfoldable pub counted : RawCanFrame → App P → App P
  counted f a = record a {
    received_count = u64 (a.received_count + 1);
    interval_count = u32 (a.interval_count + 1);
    latest = metadata_from f;
  }

  unfoldable pub shut_down : App P → App P
  shut_down a =
      let (b, stop_result) = stop P S.others a.bus in
      record a { bus = b; calls = disable gpio a.calls }

  abbrev pub judged :
      Verdict → App P → Bool → App P × Bool × Option Result → App P × Bool × Option Result
  judged next_frame a received rest = rest
  judged end_batch a received rest = (a, received, none)
  judged (failure r) a received rest = (shut_down a, received, some r)

  -- The inner loop: whether a frame was received, and the failure that ends app_main.
  unfoldable pub batch : ℕ → Bool → App P → App P × Bool × Option Result
  batch zero received a = (a, received, none)
  batch (suc remaining) received a =
      let (b, result, frame) = receive P S.others a.bus in
      let a1 = record a { bus = b } in
      let rest = batch remaining true (counted (frame_of frame) a1) in
      judged (verdict result) a1 received rest

  unfoldable pub summary_due : ℕ → ℕ → Bool
  summary_due now deadline = ltb (sub32 now deadline) (2 ^ 31)

  unfoldable pub summarize : Bool → App P → App P
  summarize received a =
      let bus = a.bus in
      let (w, now) = S.tick_count bus.world in
      let a1 = record a { bus = record bus { world = w } } in
      if received && summary_due now a.summary_deadline
      then record a1 {
        summaries =
            record {
              total_count = a.received_count;
              interval = a.interval_count;
              latest_frame = a.latest;
            }
            ∷ a.summaries;
        interval_count = 0;
        summary_deadline = u32 (now + S.summary_period);
      }
      else a1

  -- vTaskDelay
  unfoldable pub delay_after : Bool → App P → App P
  delay_after received a = if received then record a { bus = S.others a.bus } else a

  abbrev pub continued : Option Result → App P → App P × Option Ending → App P × Option Ending
  continued none a rest = rest
  continued (some r) a rest = (a, some (receive_failed r))

  -- The outer loop; no ending means that it still runs.
  unfoldable pub rounds : ℕ → App P → App P × Option Ending
  rounds zero a = (a, none)
  rounds (suc fuel) a =
      let (a1, received, failed) = batch max_frames_per_batch false a in
      let rest = rounds fuel (delay_after received (summarize received a1)) in
      continued failed a1 rest

  abbrev pub begun : Bus P → List Call → App P
  begun bus calls =
      let (w, now) = S.tick_count bus.world in
      record {
        bus = record bus { world = w };
        calls = calls;
        received_count = 0;
        interval_count = 0;
        latest = no_metadata;
        summary_deadline = u32 (now + S.summary_period);
        summaries = [];
      }

  -- An app_main that ends before its loop has the counts of its start.
  abbrev pub idle : Bus P → List Call → App P
  idle bus calls = record {
    bus = bus;
    calls = calls;
    received_count = 0;
    interval_count = 0;
    latest = no_metadata;
    summary_deadline = 0;
    summaries = [];
  }

  unfoldable pub app_main : ℕ → Bus P → App P × Option Ending
  app_main fuel bus =
      let (calls, safe) = initialize gpio [] in
      let (b, result) = start P S.others configuration bus in
      let run = rounds fuel (begun b calls) in
      if safe
      then (if has_started result
          then run
          else (idle b (disable gpio calls), some (start_failed result)))
      else (idle bus calls, some board_refused)
