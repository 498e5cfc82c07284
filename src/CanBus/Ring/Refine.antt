-- ===== src/CanBus/Ring/Refine.antt =====
-- The ring refines the bounded queue of CanBus/Fifo, across the wrap of its indices.
use native.Mathlib.Nat.{mod-eq_of_lt}
use native.Mathlib.Decide.{dec_lt}
use esp32_vehicle_can_core.Prelude.{
  ℕ, suc, ◌+◌, ◌-◌, ◌%◌, ◌≤◌, ◌≡◌, refl, List, [], ◌∷◌, arith, length, u32, sub32, length-window,
  window-pos, window-set,
}
use esp32_vehicle_can_core.VehicleCore.Frame.{RawCanFrame}
use esp32_vehicle_can_core.CanBus.Fifo
use esp32_vehicle_can_core.CanBus.Fifo.{Op, put, get, Reply, accepted, delivered}
use esp32_vehicle_can_core.CanBus.Ring.Window.{IsFit, contents, head_slot, tail_step}
use esp32_vehicle_can_core.CanBus.Ring.Depth.{depth_lem}
use esp32_vehicle_can_core.CanBus.Types.{
  no_counts, StatisticsOperation, take_snapshot, snapshot_and_reset,
}
use esp32_vehicle_can_core.CanBus.Ring.{FrameRing, no_frame, push, pop, snapshot, clear}
use esp32_vehicle_can_core.CanBus.Ring.Invariant.{Inv, distance, push-Inv, pop-Inv}

module _ (capacity : ℕ) where
  pub length-contents : (r : FrameRing) → length (contents capacity r) ≡ distance r
  length-contents r = length-window no_frame capacity r.frames r.tail (distance r)

  -- `push` answers as the bounded queue does and leaves the ring holding its queue: a full ring
  -- drops the newest frame and keeps what it holds, at any position of the wrapping indices.
  pub push_refines :
      (r : FrameRing) (f : RawCanFrame)
      → IsFit capacity
      → Inv capacity r
      → let (r', b) = push capacity r f in
        (contents capacity r', b) ≡ Fifo.push capacity (contents capacity r) f
  unfolding push Fifo.push
  push_refines r f fit v = elim (dec_lt (distance r) capacity) [
    | yes room ↦
        let grown : sub32 (u32 (r.head + 1)) r.tail ≡ suc (distance r) = omega arith in
        ground (
          arith,
          length-contents r,
          grown,
          window-set no_frame capacity r.frames f (distance r) r.tail (r.head % capacity)
              (omega arith) room (head_slot capacity r fit v.head_in v.tail_in),
        )
    | no full ↦ ground (arith, length-contents r)
  ]

  -- `pop` delivers the oldest frame and leaves the rest, or leaves an empty ring alone.
  pub pop_refines :
      (r : FrameRing)
      → IsFit capacity
      → Inv capacity r
      → let (r', o) = pop capacity r in (contents capacity r', o) ≡ Fifo.pop (contents capacity r)
  unfolding pop Fifo.pop
  pop_refines r fit v = elim (dec_lt 0 (distance r)) [
    | yes some_left ↦
        let shrunk : sub32 r.head (u32 (r.tail + 1)) ≡ distance r - 1 = omega arith in
        ground (
          arith,
          shrunk,
          window-pos no_frame capacity r.frames r.tail (distance r) (omega arith),
          tail_step capacity r (distance r - 1) fit,
        )
    | no none_left ↦ let none_held : distance r ≡ 0 = omega arith in ground (arith, none_held)
  ]

  -- The calls of a producer and a consumer, in the order in which they take effect.
  unfoldable pub run : FrameRing → List (Op RawCanFrame) → List (Reply RawCanFrame)
  run r [] = []
  run r (put f ∷ ops) = let (r', b) = push capacity r f in accepted b ∷ run r' ops
  run r (get ∷ ops) = let (r', o) = pop capacity r in delivered o ∷ run r' ops

  -- For a capacity that divides 2 ^ 32, no sequence of pushes and pops tells a well-formed ring, at
  -- any position of its wrapping indices, from the bounded queue of what it holds.
  pub run_refines :
      (r : FrameRing) (ops : List (Op RawCanFrame))
      → IsFit capacity
      → Inv capacity r
      → run r ops ≡ Fifo.run capacity (contents capacity r) ops
  unfolding run Fifo.run
  run_refines r [] fit v = refl
  run_refines r (put f ∷ ops) fit v = rw (
    run_refines (push capacity r f).0 ops fit (push-Inv capacity r f fit.small v),
    ← push_refines r f fit v,
  )
  run_refines r (get ∷ ops) fit v =
      rw (run_refines (pop capacity r).0 ops fit (pop-Inv capacity r v), ← pop_refines r fit v)

  -- For a capacity that divides 2 ^ 32, a snapshot of a well-formed ring reports the counters as
  -- they stand and the number of frames held, at most the watermark, which is at most the capacity,
  -- and leaves what the ring holds alone; without a reset it changes nothing, and with one the
  -- counters restart at zero and the watermark at the live depth.
  pub snapshot_lem :
      (r : FrameRing) (op : StatisticsOperation)
      → IsFit capacity
      → Inv capacity r
      → let (r', s) = snapshot capacity r op in
        (s.counters ≡ r.counters)
        × (s.queue_depth ≡ length (contents capacity r))
        × (s.queue_depth ≤ s.queue_high_watermark)
        × (s.queue_high_watermark ≤ s.queue_capacity_reported)
        × (contents capacity r' ≡ contents capacity r)
        × (op ≡ take_snapshot → r' ≡ r)
        × (op ≡ snapshot_and_reset
            → (r'.counters ≡ no_counts) × (r'.queue_high_watermark ≡ s.queue_depth))
  unfolding snapshot
  snapshot_lem r take_snapshot fit v =
      ground (arith, length-contents r, depth_lem capacity r, mod-eq_of_lt fit.small)
  snapshot_lem r snapshot_and_reset fit v =
      ground (arith, length-contents r, depth_lem capacity r, mod-eq_of_lt fit.small)

  -- `clear` empties the ring, its counters and its watermark, whatever the ring held.
  pub clear_lem :
      (r : FrameRing)
      → Inv capacity r
      → let r' = clear capacity r in
        (contents capacity r' ≡ []) × (r'.counters ≡ no_counts) × (r'.queue_high_watermark ≡ 0)
  unfolding clear
  clear_lem r v = let gone : sub32 r.head r.head ≡ 0 = omega arith in ground (arith, gone)
