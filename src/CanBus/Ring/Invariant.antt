-- ===== src/CanBus/Ring/Invariant.antt =====
-- The representation invariant of FrameRing: every access in range, depth and watermark within the
-- capacity, and the counters in balance.
use esp32_vehicle_can_core.Prelude.{
  ℕ, ◌+◌, ◌%◌, ◌≤◌, ◌<◌, ◌^◌, ◌≡◌, arith, length, length-set, length-replicate, u64, sub32,
}
use esp32_vehicle_can_core.VehicleCore.Frame.{RawCanFrame}
use esp32_vehicle_can_core.CanBus.Types.{StatisticsOperation, take_snapshot, snapshot_and_reset}
use esp32_vehicle_can_core.CanBus.Ring.{
  FrameRing, no_frame, fresh_ring, push, pop, snapshot, clear, record_bus_error,
  record_driver_rx_missed, record_controller_reset, record_bus_off,
}
use esp32_vehicle_can_core.CanBus.Ring.Depth.{depth_lem}

-- The number of frames between the indices, across a wrap of size_t.
abbrev pub distance : FrameRing → ℕ
distance r = sub32 r.head r.tail

pub record Inv (capacity : ℕ) (r : FrameRing) : Type 0 where
  pub storage : length r.frames ≡ capacity
  pub head_in : r.head < 2 ^ 32
  pub tail_in : r.tail < 2 ^ 32
  pub depth_in : distance r ≤ capacity
  pub watermark_above : distance r ≤ r.queue_high_watermark
  pub watermark_in : r.queue_high_watermark ≤ capacity
  pub received_in : r.frames_received < 2 ^ 64
  pub balanced : r.frames_received ≡ u64 (r.frames_queued + r.frames_dropped)
  pub overflows : r.queue_overflows ≡ r.frames_dropped

module _ (capacity : ℕ) where
  -- A ring that was just constructed satisfies the invariant.
  pub fresh_ring-Inv : Inv capacity (fresh_ring capacity)
  unfolding fresh_ring
  fresh_ring-Inv = ground (arith, length-replicate capacity no_frame)

  -- Every call keeps the invariant: the slots stay in number, the depth never exceeds the capacity
  -- nor the watermark, the watermark never exceeds the capacity, and modulo 2 ^ 64 each frame
  -- received was queued or dropped, with as many overflows as drops.
  pub push-Inv :
      (r : FrameRing) (f : RawCanFrame)
      → capacity < 2 ^ 32
      → Inv capacity r
      → Inv capacity (push capacity r f).0
  unfolding push
  push-Inv r f small v = ground (arith, length-set r.frames (r.head % capacity) f)

  pub pop-Inv : (r : FrameRing) → Inv capacity r → Inv capacity (pop capacity r).0
  unfolding pop
  pop-Inv r v = ground arith

  pub snapshot-Inv :
      (r : FrameRing) (op : StatisticsOperation)
      → Inv capacity r
      → Inv capacity (snapshot capacity r op).0
  unfolding snapshot
  snapshot-Inv r take_snapshot v = v
  snapshot-Inv r snapshot_and_reset v = ground (arith, depth_lem capacity r)

  pub clear-Inv : (r : FrameRing) → Inv capacity r → Inv capacity (clear capacity r)
  unfolding clear
  clear-Inv r v = ground (arith, depth_lem capacity (record r { tail = r.head }))

module _ {capacity : ℕ} where
  pub record_bus_error-Inv :
      (r : FrameRing) (n : ℕ) → Inv capacity r → Inv capacity (record_bus_error r n)
  unfolding record_bus_error
  record_bus_error-Inv r n v = ground arith

  pub record_driver_rx_missed-Inv :
      (r : FrameRing) (n : ℕ) → Inv capacity r → Inv capacity (record_driver_rx_missed r n)
  unfolding record_driver_rx_missed
  record_driver_rx_missed-Inv r n v = ground arith

  pub record_controller_reset-Inv :
      (r : FrameRing) (n : ℕ) → Inv capacity r → Inv capacity (record_controller_reset r n)
  unfolding record_controller_reset
  record_controller_reset-Inv r n v = ground arith

  pub record_bus_off-Inv :
      (r : FrameRing) (n : ℕ) → Inv capacity r → Inv capacity (record_bus_off r n)
  unfolding record_bus_off
  record_bus_off-Inv r n v = ground arith
