-- ===== src/CanBus/Ring/Sequential.antt =====
-- push and pop of frame_ring.hpp, undisturbed: the steps of Ring/Interleaving in turn.
use esp32_vehicle_can_core.Prelude.{
  Bool, true, false, Option, none, some, ℕ, ◌≤◌, ◌<◌, ◌≡◌, ◌≢◌, inl, inr, List, [], ◌∷◌, ◌++◌,
  arith, Bool-cases, leb, ◌==◌, sub32,
}
use esp32_vehicle_can_core.VehicleCore.Frame.{RawCanFrame}
use esp32_vehicle_can_core.CanBus.Ring.{FrameRing, raise_watermark, drop_newest, enqueue, push, pop}
use esp32_vehicle_can_core.CanBus.Ring.Interleaving.{Producer, outside, Consumer, away, Push, Pop}

-- The frames that a call sends or takes.
abbrev pub sent : Bool → RawCanFrame → List RawCanFrame
sent true f = f ∷ []
sent false f = []

abbrev pub taken : Option RawCanFrame → List RawCanFrame
taken none = []
taken (some f) = f ∷ []

module _ (capacity : ℕ) where
  -- Steps of the producer in turn, with the frames sent.
  pub data Pushes (r : FrameRing) (p : Producer)
      : FrameRing → Producer → List RawCanFrame → Type 0 where
    stay : Pushes r p r p []
    and_then :
        {r1 r2 : FrameRing} {p1 p2 : Producer} {fs gs : List RawCanFrame}
        → Pushes r p r1 p1 fs
        → Push capacity r1 p1 r2 p2 gs
        → Pushes r p r2 p2 (fs ++ gs)

  pub data Pops (r : FrameRing) (c : Consumer)
      : FrameRing → Consumer → List RawCanFrame → Type 0 where
    stay : Pops r c r c []
    and_then :
        {r1 r2 : FrameRing} {c1 c2 : Consumer} {fs gs : List RawCanFrame}
        → Pops r c r1 c1 fs
        → Pop capacity r1 c1 r2 c2 gs
        → Pops r c r2 c2 (fs ++ gs)

  pub raised : (d w : ℕ) → d ≤ raise_watermark [] d w
  unfolding raise_watermark
  raised d w = ground arith

  -- A call of `push` with nothing between its accesses is a run of the producer's steps: it leads to
  -- the ring that `push` leaves, and sends the frame exactly if `push` accepts it.
  pub push_steps :
      (r : FrameRing) (f : RawCanFrame)
      → let (r', b) = push capacity r f in Pushes r outside r' outside (sent b f)
  unfolding push drop_newest enqueue
  push_steps r f = elim (Bool-cases (leb capacity (sub32 r.head r.tail))) [
    | inl full ↦
        let no_room : capacity ≤ sub32 r.head r.tail = ground arith in
        let loaded =
          Pushes.and_then
            (Pushes.and_then (Pushes.and_then Pushes.stay (Push.enter f)) Push.load_head)
            Push.load_tail in
        rw full (Pushes.and_then loaded (Push.drop {h = r.head} {t = r.tail} no_room))
    | inr room ↦
        let has_room : sub32 r.head r.tail < capacity = ground arith in
        let loaded =
          Pushes.and_then
            (Pushes.and_then (Pushes.and_then Pushes.stay (Push.enter f)) Push.load_head)
            Push.load_tail in
        let stored =
          Pushes.and_then (Pushes.and_then loaded (Push.write {h = r.head} {t = r.tail} has_room))
            Push.publish in
        rw room (Pushes.and_then stored (Push.raise _ (raised _ r.queue_high_watermark)))
  ]

  -- A call of `pop` with nothing between its accesses is a run of the consumer's steps: it leads to
  -- the ring that `pop` leaves, and takes the frame that `pop` returns, or none.
  pub pop_steps : (r : FrameRing) → let (r', o) = pop capacity r in Pops r away r' away (taken o)
  unfolding pop
  pop_steps r = elim (Bool-cases (r.tail == r.head)) [
    | inl e ↦
        let same : r.tail ≡ r.head = ground arith in
        let loaded = Pops.and_then Pops.stay Pop.load_tail in
        rw e (Pops.and_then loaded (Pop.empty {t = r.tail} same))
    | inr ne ↦
        let apart : r.tail ≢ r.head = λ e. ground arith in
        let loaded = Pops.and_then Pops.stay Pop.load_tail in
        let copied = Pops.and_then (Pops.and_then loaded (Pop.find {t = r.tail} apart)) Pop.copy in
        rw ne (Pops.and_then copied Pop.release)
  ]
