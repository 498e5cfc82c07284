-- ===== src/CanBus/Ring/Order.antt =====
-- The order in which the ring hands frames over, whatever the interleaving of its threads.
use esp32_vehicle_can_core.Prelude.{
  ℕ, suc, ◌+◌, ◌-◌, ◌%◌, ◌≤◌, ◌<◌, ◌^◌, ◌≡◌, ◌≢◌, refl, ap, sym, ◌∙◌, List, [], ◌∷◌, ◌++◌, arith,
  length, length-set, length-replicate, get_or, set, get_or-set_self, get_or-set_ne, u32, sub32,
  window-pos, add-mod-ne, window-set_past, window-suc,
}
use native.Mathlib.Nat.{mod-lt}
use mathlib.Core.List.{append-nil, append_assoc}
use esp32_vehicle_can_core.VehicleCore.Frame.{RawCanFrame}
use esp32_vehicle_can_core.CanBus.Ring.{FrameRing, no_frame, fresh_ring}
use esp32_vehicle_can_core.CanBus.Ring.Invariant.{distance}
use esp32_vehicle_can_core.CanBus.Ring.Window.{IsFit, contents, head_slot, tail_step}
use esp32_vehicle_can_core.CanBus.Ring.Interleaving.{
  Producer, outside, entered, has_head, has_both, written, published, Consumer, away, has_tail,
  nonempty, copied, System, Push, start,
}

-- What each thread knows at its position. The tail that the producer read may have moved on since,
-- which only makes room.
abbrev pub ProducerKnows : ℕ → FrameRing → Producer → Type 0
ProducerKnows capacity r outside = Unit {0}
ProducerKnows capacity r (entered f) = Unit {0}
ProducerKnows capacity r (has_head f h) = h ≡ r.head
ProducerKnows capacity r (has_both f h t) = (h ≡ r.head) × (distance r ≤ sub32 h t)
ProducerKnows capacity r (written f h t) =
    (h ≡ r.head) × (distance r < capacity) × (get_or r.frames (h % capacity) no_frame ≡ f)
ProducerKnows capacity r (published d) = Unit {0}

abbrev pub ConsumerKnows : ℕ → FrameRing → Consumer → Type 0
ConsumerKnows capacity r away = Unit {0}
ConsumerKnows capacity r (has_tail t) = t ≡ r.tail
ConsumerKnows capacity r (nonempty t) = (t ≡ r.tail) × (0 < distance r)
ConsumerKnows capacity r (copied t f) =
    (t ≡ r.tail) × (0 < distance r) × (f ≡ get_or r.frames (r.tail % capacity) no_frame)

pub record Ordered (capacity : ℕ) (s : System) : Type 0 where
  pub storage : length s.ring.frames ≡ capacity
  pub head_in : s.ring.head < 2 ^ 32
  pub tail_in : s.ring.tail < 2 ^ 32
  pub depth_in : distance s.ring ≤ capacity
  pub producer_knows : ProducerKnows capacity s.ring s.producer
  pub consumer_knows : ConsumerKnows capacity s.ring s.consumer
  pub in_order : s.sent ≡ s.taken ++ contents capacity s.ring

pub start-Ordered : (capacity : ℕ) → Ordered capacity (start capacity)
unfolding fresh_ring
start-Ordered capacity = record {
  storage = length-replicate capacity no_frame;
  head_in = omega arith;
  tail_in = omega arith;
  depth_in = omega arith;
  producer_knows = tt;
  consumer_knows = tt;
  in_order = refl;
}

module _ (capacity : ℕ) (fit : IsFit capacity) where
  -- The slot that the producer writes is not the one that the consumer copies.
  pub slots_apart :
      (r : FrameRing)
      → r.head < 2 ^ 32
      → r.tail < 2 ^ 32
      → 0 < distance r
      → distance r < capacity
      → r.head % capacity ≢ r.tail % capacity
  slots_apart r hi ti some_held room =
      rw (head_slot capacity r fit hi ti) (add-mod-ne capacity r.tail (distance r) some_held room)

  write-ConsumerKnows :
      (r : FrameRing) (f : RawCanFrame) (c : Consumer)
      → r.head < 2 ^ 32
      → r.tail < 2 ^ 32
      → distance r < capacity
      → ConsumerKnows capacity r c
      → ConsumerKnows capacity (record r { frames = set r.frames (r.head % capacity) f }) c
  write-ConsumerKnows r f away hi ti room k = tt
  write-ConsumerKnows r f (has_tail t) hi ti room k = k
  write-ConsumerKnows r f (nonempty t) hi ti room k = k
  write-ConsumerKnows r f (copied t g) hi ti room (at_tail, some_held, same) = (
    at_tail,
    some_held,
    same ∙ sym (get_or-set_ne r.frames f no_frame (slots_apart r hi ti some_held room)),
  )

  publish-ConsumerKnows :
      (r : FrameRing) (c : Consumer)
      → sub32 (u32 (r.head + 1)) r.tail ≡ suc (distance r)
      → ConsumerKnows capacity r c
      → ConsumerKnows capacity (record r { head = u32 (r.head + 1) }) c
  publish-ConsumerKnows r away grown k = tt
  publish-ConsumerKnows r (has_tail t) grown k = k
  publish-ConsumerKnows r (nonempty t) grown k = (k.0, omega arith)
  publish-ConsumerKnows r (copied t g) grown k = (k.0, omega arith, k.2)

  -- The invariant with the system taken apart.
  abbrev pub Holds : FrameRing → Producer → Consumer → List RawCanFrame → List RawCanFrame → Type 0
  Holds r p c sent taken =
      Ordered capacity (record { ring = r; producer = p; consumer = c; sent = sent; taken = taken })

  write-Ordered :
      (r : FrameRing) (c : Consumer) (sent taken : List RawCanFrame) (f : RawCanFrame) (h t : ℕ)
      → sub32 h t < capacity
      → Holds r (has_both f h t) c sent taken
      → Holds
          (record r { frames = set r.frames (h % capacity) f })
          (written f h t)
          c
          (sent ++ [])
          taken
  write-Ordered r c sent taken f h t room v =
      let same_head = v.producer_knows.0 in
      let inside : distance r < capacity = omega arith in
      record {
        storage = length-set r.frames (h % capacity) f ∙ v.storage;
        head_in = v.head_in;
        tail_in = v.tail_in;
        depth_in = v.depth_in;
        producer_knows = (
          same_head,
          inside,
          get_or-set_self r.frames (h % capacity) f no_frame
              (omega (arith, mod-lt h {m = capacity} fit.positive)),
        );
        consumer_knows =
            rw same_head (write-ConsumerKnows r f c v.head_in v.tail_in inside v.consumer_knows);
        in_order =
            append-nil sent
            ∙ v.in_order
            ∙ ap (◌++◌ taken) (
                sym (
                  window-set_past no_frame capacity r.frames f (distance r) (distance r) r.tail
                    (h % capacity) (omega arith) inside
                    (ap (λ i. i % capacity) same_head
                      ∙ head_slot capacity r fit v.head_in v.tail_in)));
      }

  publish-Ordered :
      (r : FrameRing) (c : Consumer) (sent taken : List RawCanFrame) (f : RawCanFrame) (h t : ℕ)
      → Holds r (written f h t) c sent taken
      → Holds
          (record r { head = u32 (h + 1) })
          (published (sub32 (u32 (h + 1)) t))
          c
          (sent ++ (f ∷ []))
          taken
  publish-Ordered r c sent taken f h t v =
      let same_head = v.producer_knows.0 in
      let grown : sub32 (u32 (r.head + 1)) r.tail ≡ suc (distance r) = omega (arith, fit.small) in
      let slot : get_or r.frames ((r.tail + distance r) % capacity) no_frame ≡ f =
        rw (← head_slot capacity r fit v.head_in v.tail_in, ← same_head) v.producer_knows.2 in
      let longer : contents capacity (record r { head = u32 (r.head + 1) })
          ≡ contents capacity r ++ (f ∷ []) =
        rw grown (
          window-suc no_frame capacity r.frames r.tail (distance r)
          ∙ ap (λ g. contents capacity r ++ (g ∷ [])) slot) in
      rw same_head (record {
        storage = v.storage;
        head_in = omega arith;
        tail_in = v.tail_in;
        depth_in = omega arith;
        producer_knows = tt;
        consumer_knows = publish-ConsumerKnows r c grown v.consumer_knows;
        in_order =
            ap (λ l. l ++ (f ∷ [])) v.in_order
            ∙ append_assoc taken (contents capacity r) (f ∷ [])
            ∙ ap (◌++◌ taken) (sym longer);
      })

  -- Each step of the producer, seen from what the two threads know.
  pub Push-Ordered :
      {r r' : FrameRing} {p p' : Producer} {c : Consumer} {sent taken fs : List RawCanFrame}
      → Push capacity r p r' p' fs
      → Holds r p c sent taken
      → Holds r' p' c (sent ++ fs) taken
  Push-Ordered {sent} (Push.enter f) v = ground (arith, append-nil sent)
  Push-Ordered {sent} Push.load_head v = ground (arith, append-nil sent)
  Push-Ordered {sent} Push.load_tail v = ground (arith, append-nil sent)
  Push-Ordered {sent} (Push.drop full) v = ground (arith, append-nil sent)
  Push-Ordered {r} {c} {sent} {taken} (Push.write {f} {h} {t} room) v =
      write-Ordered r c sent taken f h t room v
  Push-Ordered {r} {c} {sent} {taken} (Push.publish {f} {h} {t}) v =
      publish-Ordered r c sent taken f h t v
  Push-Ordered {sent} (Push.raise w le) v = ground (arith, append-nil sent)

  release-ProducerKnows :
      (r : FrameRing) (p : Producer)
      → sub32 r.head (u32 (r.tail + 1)) + 1 ≡ distance r
      → ProducerKnows capacity r p
      → ProducerKnows capacity (record r { tail = u32 (r.tail + 1) }) p
  release-ProducerKnows r outside shrunk k = tt
  release-ProducerKnows r (entered f) shrunk k = tt
  release-ProducerKnows r (has_head f h) shrunk k = k
  release-ProducerKnows r (has_both f h t) shrunk k = (k.0, omega arith)
  release-ProducerKnows r (written f h t) shrunk k = (k.0, omega arith, k.2)
  release-ProducerKnows r (published d) shrunk k = tt

  pub release-Ordered :
      (r : FrameRing) (p : Producer) (sent taken : List RawCanFrame) (f : RawCanFrame) (t : ℕ)
      → Holds r p (copied t f) sent taken
      → Holds (record r { tail = u32 (t + 1) }) p away sent (taken ++ (f ∷ []))
  release-Ordered r p sent taken f t v =
      let (same_tail, some_held, same) = v.consumer_knows in
      let shrunk : sub32 r.head (u32 (r.tail + 1)) + 1 ≡ distance r = omega arith in
      let less : sub32 r.head (u32 (r.tail + 1)) ≡ distance r - 1 = omega arith in
      let rest = contents capacity (record r { tail = u32 (r.tail + 1) }) in
      let split : contents capacity r ≡ f ∷ rest =
        rw (less, same)
          (window-pos no_frame capacity r.frames r.tail (distance r) (omega arith)
            ∙ ap (◌∷◌ (get_or r.frames (r.tail % capacity) no_frame))
                (sym (tail_step capacity r (distance r - 1) fit))) in
      rw same_tail (record {
        storage = v.storage;
        head_in = v.head_in;
        tail_in = omega arith;
        depth_in = omega arith;
        producer_knows = release-ProducerKnows r p shrunk v.producer_knows;
        consumer_knows = tt;
        in_order = v.in_order ∙ ap (◌++◌ taken) split ∙ sym (append_assoc taken (f ∷ []) rest);
      })
