-- ===== src/CanBus/Ring/Interleaving.antt =====
-- push and pop of frame_ring.hpp taken apart into their accesses to shared memory, so that the
-- producer, the consumer and a reader of the statistics interleave in any order. Each step makes one
-- access to an index or a slot; the release and acquire orders of the code make the slot visible
-- with the index that publishes it, which the order of the steps reads. A reader of the statistics
-- may leave any counters and any watermark behind.
use esp32_vehicle_can_core.Prelude.{
  ℕ, ◌+◌, ◌%◌, ◌≤◌, ◌<◌, ◌≡◌, ◌≢◌, List, [], ◌∷◌, ◌++◌, get_or, set, u32, u64, sub32,
}
use esp32_vehicle_can_core.VehicleCore.Frame.{RawCanFrame}
use esp32_vehicle_can_core.CanBus.Types.{Counters}
use esp32_vehicle_can_core.CanBus.Ring.{FrameRing, no_frame, fresh_ring}

-- Where the producer stands in `push`, with the local variables that are live there.
pub data Producer : Type 0 where
  outside : Producer  -- not in `push`
  entered : RawCanFrame → Producer  -- before the load of the head
  has_head : RawCanFrame → ℕ → Producer  -- before the load of the tail
  has_both : RawCanFrame → ℕ → ℕ → Producer  -- before the test for room
  written : RawCanFrame → ℕ → ℕ → Producer  -- before the store of the head
  published : ℕ → Producer  -- before `update_watermark`

-- Where the consumer stands in `pop`.
pub data Consumer : Type 0 where
  away : Consumer  -- not in `pop`
  has_tail : ℕ → Consumer  -- before the load of the head
  nonempty : ℕ → Consumer  -- before the copy of the slot
  copied : ℕ → RawCanFrame → Consumer  -- before the store of the tail

-- `sent` lists the frames that `push` accepted, `taken` those that `pop` returned.
pub record System : Type 0 where
  pub ring : FrameRing
  pub producer : Producer
  pub consumer : Consumer
  pub sent : List RawCanFrame
  pub taken : List RawCanFrame

abbrev count_received : FrameRing → FrameRing
count_received r =
    let c = r.counters in
    record r { counters = record c { frames_received = u64 (c.frames_received + 1) } }

abbrev count_queued : FrameRing → FrameRing
count_queued r =
    let c = r.counters in
    record r { counters = record c { frames_queued = u64 (c.frames_queued + 1) } }

abbrev count_delivered : FrameRing → FrameRing
count_delivered r =
    let c = r.counters in
    record r { counters = record c { frames_delivered = u64 (c.frames_delivered + 1) } }

abbrev count_dropped : FrameRing → FrameRing
count_dropped r =
    let c = r.counters in
    record r {
      counters = record c {
        frames_dropped = u64 (c.frames_dropped + 1);
        queue_overflows = u64 (c.queue_overflows + 1);
      };
    }

-- One step of the producer: memory and position before, memory, position and frames sent after.
pub data Push (capacity : ℕ) (r : FrameRing)
    : Producer → FrameRing → Producer → List RawCanFrame → Type 0 where
  enter : (f : RawCanFrame) → Push capacity r outside (count_received r) (entered f) []
  load_head : {f : RawCanFrame} → Push capacity r (entered f) r (has_head f r.head) []
  load_tail : {f : RawCanFrame} {h : ℕ} → Push capacity r (has_head f h) r (has_both f h r.tail) []
  drop :
      {f : RawCanFrame} {h t : ℕ}
      → capacity ≤ sub32 h t
      → Push capacity r (has_both f h t) (count_dropped r) outside []
  write :
      {f : RawCanFrame} {h t : ℕ}
      → sub32 h t < capacity
      → Push capacity r
          (has_both f h t)
          (record r { frames = set r.frames (h % capacity) f })
          (written f h t)
          []
  publish :
      {f : RawCanFrame} {h t : ℕ}
      → Push capacity r
          (written f h t)
          (record r { head = u32 (h + 1) })
          (published (sub32 (u32 (h + 1)) t))
          (f ∷ [])
  raise :
      {d : ℕ} (w : ℕ)
      → d ≤ w
      → Push capacity r
          (published d)
          (count_queued (record r { queue_high_watermark = w }))
          outside
          []

-- One step of the consumer, with the frames taken.
pub data Pop (capacity : ℕ) (r : FrameRing)
    : Consumer → FrameRing → Consumer → List RawCanFrame → Type 0 where
  load_tail : Pop capacity r away r (has_tail r.tail) []
  empty : {t : ℕ} → t ≡ r.head → Pop capacity r (has_tail t) r away []
  find : {t : ℕ} → t ≢ r.head → Pop capacity r (has_tail t) r (nonempty t) []
  copy :
      {t : ℕ}
      → Pop capacity r (nonempty t) r (copied t (get_or r.frames (t % capacity) no_frame)) []
  release :
      {t : ℕ} {f : RawCanFrame}
      → Pop capacity r
          (copied t f)
          (count_delivered (record r { tail = u32 (t + 1) }))
          away
          (f ∷ [])

pub data Step (capacity : ℕ) (s : System) : System → Type 0 where
  produce :
      {r : FrameRing} {p : Producer} {fs : List RawCanFrame}
      → Push capacity s.ring s.producer r p fs
      → Step capacity s (record s { ring = r; producer = p; sent = s.sent ++ fs })
  consume :
      {r : FrameRing} {c : Consumer} {fs : List RawCanFrame}
      → Pop capacity s.ring s.consumer r c fs
      → Step capacity s (record s { ring = r; consumer = c; taken = s.taken ++ fs })
  observe :
      (c : Counters) (w : ℕ)
      → Step capacity s
          (record s { ring = record (s.ring) { counters = c; queue_high_watermark = w } })

abbrev pub start : ℕ → System
start capacity = record {
  ring = fresh_ring capacity;
  producer = outside;
  consumer = away;
  sent = [];
  taken = [];
}

-- The states that any interleaving of the threads reaches.
pub data Reach (capacity : ℕ) : System → Type 0 where
  begin : Reach capacity (start capacity)
  then : {s t : System} → Reach capacity s → Step capacity s t → Reach capacity t
