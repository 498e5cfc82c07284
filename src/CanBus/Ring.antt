-- ===== src/CanBus/Ring.antt =====
-- components/can_bus/private_include/can_bus/frame_ring.hpp: the bounded ring between the
-- acquisition task and its consumer, one call at a time. `Ring/Interleaving` takes the calls apart.
-- Head and tail are the size_t of the ESP32, which wraps at 2 ^ 32; the counters are uint64_t.
pub mod Depth
pub mod Invariant
pub mod Window
pub mod Refine
pub mod Interleaving
pub mod Order
pub mod Threads
pub mod Sequential
use esp32_vehicle_can_core.Prelude.{
  ℕ, suc, zero, ◌+◌, ◌%◌, Bool, true, false, Option, none, some, List, [], ◌∷◌, ltb, leb, ◌==◌,
  if◌then◌else◌, get_or, set, replicate, u32, u64, sub32,
}
use esp32_vehicle_can_core.VehicleCore.Frame.{RawCanFrame, standard}
use esp32_vehicle_can_core.CanBus.Types.{
  Counters, no_counts, Statistics, StatisticsOperation, take_snapshot, snapshot_and_reset,
}

pub data RingIndex : Type 0 where
  head_index tail_index : RingIndex

-- `load n i` is what the load number `n` of index `i` returns. Each round of the loop makes three
-- loads; `none` means that the fuel ran out.
unfoldable pub coherent_depth : ℕ → (ℕ → RingIndex → ℕ) → ℕ → ℕ → Option ℕ
coherent_depth capacity load zero n = none
coherent_depth capacity load (suc fuel) n =
    let again = coherent_depth capacity load fuel (n + 3) in
    let tail_before = load n tail_index in
    let head = load (n + 1) head_index in
    let tail_after = load (n + 2) tail_index in
    let distance = sub32 head tail_after in
    if tail_before == tail_after
    then (if leb distance capacity then some (u32 distance) else again)
    else again

pub record FrameRing : Type 0 where
  pub frames : List RawCanFrame
  pub head : ℕ
  pub tail : ℕ
  pub counters : Counters
  pub open counters use *
  pub queue_high_watermark : ℕ

-- `RawCanFrame{}`
abbrev pub no_frame : RawCanFrame
no_frame = record {
  timestamp_us = 0;
  bus_id = 0;
  identifier = 0;
  identifier_format = standard;
  remote_request = false;
  dlc = 0;
  data_bytes = replicate 8 0;
}

-- The compare-exchange loop of `update_watermark` and `ensure_watermark_at_least`, which raise the
-- watermark to a depth: `seen` lists what the exchanges that fail find there, a value that another
-- thread stored or, after a spurious failure, the old one. The result is what is stored at the end.
unfoldable pub raise_watermark : List ℕ → ℕ → ℕ → ℕ
raise_watermark [] depth_value watermark =
    if ltb watermark depth_value then depth_value else watermark
raise_watermark (now ∷ seen) depth_value watermark =
    if ltb watermark depth_value then raise_watermark seen depth_value now else watermark

unfoldable pub fresh_ring : ℕ → FrameRing
fresh_ring capacity = record {
  frames = replicate capacity no_frame;
  head = 0;
  tail = 0;
  counters = no_counts;
  queue_high_watermark = 0;
}

abbrev load_index : FrameRing → RingIndex → ℕ
load_index r head_index = r.head
load_index r tail_index = r.tail

module _ (capacity : ℕ) where
  -- With no other thread at work the first round of the loop returns.
  unfoldable pub depth : FrameRing → ℕ
  unfolding coherent_depth
  depth r = elim (coherent_depth capacity (λ n. load_index r) 1 0) [ none ↦ 0 | some d ↦ d ]

  drop_newest : FrameRing → FrameRing
  drop_newest r =
      let c = r.counters in
      record r {
        counters = record c {
          frames_dropped = u64 (c.frames_dropped + 1);
          queue_overflows = u64 (c.queue_overflows + 1);
        };
      }

  enqueue : FrameRing → RawCanFrame → FrameRing
  unfolding raise_watermark
  enqueue r frame =
      let c = r.counters in
      record r {
        frames = set r.frames (r.head % capacity) frame;
        head = u32 (r.head + 1);
        queue_high_watermark =
            raise_watermark [] (sub32 (u32 (r.head + 1)) r.tail) r.queue_high_watermark;
        counters = record c { frames_queued = u64 (c.frames_queued + 1) };
      }

  unfoldable pub push : FrameRing → RawCanFrame → FrameRing × Bool
  unfolding drop_newest enqueue
  push r frame =
      let c = r.counters in
      let r1 = record r { counters = record c { frames_received = u64 (c.frames_received + 1) } } in
      if leb capacity (sub32 r.head r.tail)
      then (drop_newest r1, false)
      else (enqueue r1 frame, true)

  -- The frame is what goes through the out parameter; `none` where it is left alone.
  unfoldable pub pop : FrameRing → FrameRing × Option RawCanFrame
  pop r =
      let c = r.counters in
      if r.tail == r.head then (r, none) else (
        record r {
          tail = u32 (r.tail + 1);
          counters = record c { frames_delivered = u64 (c.frames_delivered + 1) };
        },
        some (get_or r.frames (r.tail % capacity) no_frame),
      )

  unfoldable pub snapshot : FrameRing → StatisticsOperation → FrameRing × Statistics
  unfolding depth raise_watermark
  snapshot r op =
      let report : Statistics = record {
        counters = r.counters;
        queue_depth = depth r;
        queue_high_watermark = r.queue_high_watermark;
        queue_capacity_reported = u32 capacity;
      } in
      elim op [
        | take_snapshot ↦ (r, report)
        | snapshot_and_reset ↦ (
          record r {
            counters = no_counts;
            queue_high_watermark = raise_watermark [] (depth r) (depth r);
          },
          report,
        )
      ]

  unfoldable pub clear : FrameRing → FrameRing
  unfolding snapshot
  clear r =
      let emptied = (snapshot (record r { tail = r.head }) snapshot_and_reset).0 in
      record emptied { queue_high_watermark = 0 }

unfoldable pub record_bus_error : FrameRing → ℕ → FrameRing
record_bus_error r count =
    let c = r.counters in
    record r { counters = record c { bus_errors = u64 (c.bus_errors + count) } }

unfoldable pub record_driver_rx_missed : FrameRing → ℕ → FrameRing
record_driver_rx_missed r count =
    let c = r.counters in
    record r { counters = record c { driver_rx_missed = u64 (c.driver_rx_missed + count) } }

unfoldable pub record_controller_reset : FrameRing → ℕ → FrameRing
record_controller_reset r count =
    let c = r.counters in
    record r { counters = record c { controller_resets = u64 (c.controller_resets + count) } }

unfoldable pub record_bus_off : FrameRing → ℕ → FrameRing
record_bus_off r count =
    let c = r.counters in
    record r { counters = record c { bus_off_events = u64 (c.bus_off_events + count) } }
