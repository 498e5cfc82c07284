-- ===== src/CanBus/Ring/Threads.antt =====
-- What holds of the ring in every state that an interleaving of its threads reaches.
use esp32_vehicle_can_core.Prelude.{ℕ, ◌%◌, ◌≤◌, ◌<◌, ◌≡◌, ◌≢◌, List, ◌++◌, arith, sub32}
use mathlib.Core.List.{append-nil}
use mathlib.Core.Path.{subst}
use esp32_vehicle_can_core.VehicleCore.Frame.{RawCanFrame}
use esp32_vehicle_can_core.CanBus.Types.{Counters}
use esp32_vehicle_can_core.CanBus.Ring.{FrameRing}
use esp32_vehicle_can_core.CanBus.Ring.Invariant.{distance}
use esp32_vehicle_can_core.CanBus.Ring.Window.{IsFit, contents}
use esp32_vehicle_can_core.CanBus.Ring.Interleaving.{
  Producer, outside, has_both, Consumer, away, nonempty, System, Pop, Step, produce, consume,
  observe, Reach, begin, then,
}
use esp32_vehicle_can_core.CanBus.Ring.Order.{
  Ordered, Holds, ProducerKnows, ConsumerKnows, slots_apart, start-Ordered, Push-Ordered,
  release-Ordered,
}

module _ (capacity : ℕ) where
  -- The counters and the watermark play no part.
  recount-ProducerKnows :
      (r : FrameRing) (c : Counters) (w : ℕ) (p : Producer)
      → ProducerKnows capacity r p
      → ProducerKnows capacity (record r { counters = c; queue_high_watermark = w }) p
  recount-ProducerKnows r c w outside k = k
  recount-ProducerKnows r c w _ k = k

  recount-ConsumerKnows :
      (r : FrameRing) (c : Counters) (w : ℕ) (p : Consumer)
      → ConsumerKnows capacity r p
      → ConsumerKnows capacity (record r { counters = c; queue_high_watermark = w }) p
  recount-ConsumerKnows r c w away k = k
  recount-ConsumerKnows r c w _ k = k

  recount-Ordered :
      (s : System) (c : Counters) (w : ℕ)
      → Ordered capacity s
      → Ordered capacity
          (record s { ring = record (s.ring) { counters = c; queue_high_watermark = w } })
  recount-Ordered s c w v = record {
    storage = v.storage;
    head_in = v.head_in;
    tail_in = v.tail_in;
    depth_in = v.depth_in;
    producer_knows = recount-ProducerKnows s.ring c w s.producer v.producer_knows;
    consumer_knows = recount-ConsumerKnows s.ring c w s.consumer v.consumer_knows;
    in_order = v.in_order;
  }

module _ (capacity : ℕ) (fit : IsFit capacity) where
  Pop-Ordered :
      {r r' : FrameRing} {p : Producer} {c c' : Consumer} {sent taken fs : List RawCanFrame}
      → Pop capacity r c r' c' fs
      → Holds capacity fit r p c sent taken
      → Holds capacity fit r' p c' sent (taken ++ fs)
  Pop-Ordered {taken} Pop.load_tail v = rw (append-nil taken) (ground arith)
  Pop-Ordered {taken} (Pop.empty e) v = rw (append-nil taken) (ground arith)
  Pop-Ordered {taken} (Pop.find ne) v = rw (append-nil taken) (ground arith)
  Pop-Ordered {taken} Pop.copy v = rw (append-nil taken) (ground arith)
  Pop-Ordered {r} {p} {sent} {taken} (Pop.release {t} {f}) v =
      recount-Ordered capacity _ _ _ (release-Ordered capacity fit r p sent taken f t v)

  Step-Ordered : {s t : System} → Step capacity s t → Ordered capacity s → Ordered capacity t
  Step-Ordered (produce m) v = Push-Ordered capacity fit m v
  Step-Ordered (consume m) v = Pop-Ordered m v
  Step-Ordered {s} (observe c w) v = recount-Ordered capacity s c w v

  Reach-Ordered : {s : System} → Reach capacity s → Ordered capacity s
  Reach-Ordered begin = start-Ordered capacity
  Reach-Ordered (then r m) = Step-Ordered m (Reach-Ordered r)

  -- For a capacity that divides 2 ^ 32 and whatever the interleaving of the producer, the consumer
  -- and readers of the statistics, the frames that `pop` has returned and then those in the ring
  -- are the frames that `push` accepted, in that order: none is lost, doubled or overtaken. The
  -- depth never exceeds the capacity.
  pub fifo_order :
      {s : System}
      → Reach capacity s
      → (s.sent ≡ s.taken ++ contents capacity s.ring) × (distance s.ring ≤ capacity)
  fifo_order r = let v = Reach-Ordered r in (v.in_order, v.depth_in)

  -- For a capacity that divides 2 ^ 32 the threads do not race on a slot: in every reachable state
  -- in which the producer has found room and is about to write a slot and the consumer is about to
  -- copy one, the slots differ.
  pub no_slot_race :
      {s : System} (f : RawCanFrame) (h t u : ℕ)
      → Reach capacity s
      → s.producer ≡ has_both f h t
      → sub32 h t < capacity
      → s.consumer ≡ nonempty u
      → h % capacity ≢ u % capacity
  no_slot_race {s} f h t u r at_write room at_copy =
      let v = Reach-Ordered r in
      let write_knows : ProducerKnows capacity s.ring (has_both f h t) =
        subst (ProducerKnows capacity s.ring) at_write v.producer_knows in
      let copy_knows : ConsumerKnows capacity s.ring (nonempty u) =
        subst (ConsumerKnows capacity s.ring) at_copy v.consumer_knows in
      rw (write_knows.0, copy_knows.0)
        (slots_apart capacity fit s.ring v.head_in v.tail_in copy_knows.1 (omega arith))
