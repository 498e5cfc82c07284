-- ===== src/Baseline/Queue.antt =====
-- tools/runtime_baseline/fixture.hpp: Queue, the circular buffer of the sequence numbers that the
-- synthetic source has generated and not yet delivered. The counters are uint64_t, and the positions
-- are uint32_t.
pub mod Invariant
pub mod Refine
use esp32_vehicle_can_core.Prelude.{
  ℕ, zero, suc, ◌+◌, ◌-◌, ◌%◌, Bool, Option, none, some, List, ltb, ◌==◌, if◌then◌else◌, get_or,
  set, replicate, u32, u64, sub32,
}

abbrev pub capacity : ℕ
capacity = 128

pub record Queue : Type 0 where
  pub generated : ℕ
  pub consumed : ℕ
  pub dropped : ℕ
  pub maximum_backlog : ℕ
  pub entries : List ℕ
  pub head : ℕ
  pub size : ℕ

-- `Queue{}`
abbrev pub empty_queue : Queue
empty_queue = record {
  generated = 0;
  consumed = 0;
  dropped = 0;
  maximum_backlog = 0;
  entries = replicate capacity 0;
  head = 0;
  size = 0;
}

abbrev pub min : ℕ → ℕ → ℕ
min a b = if ltb b a then b else a

abbrev pub max : ℕ → ℕ → ℕ
max a b = if ltb a b then b else a

-- The loop of `add` from round `i` on, with `remaining` rounds to make.
unfoldable pub fill : ℕ → ℕ → Queue → List ℕ → List ℕ
fill zero i q entries = entries
fill (suc remaining) i q entries =
    fill remaining (i + 1) q
      (set entries (u32 (u32 (q.head + q.size) + i) % capacity) (u64 (q.generated + i)))

unfoldable pub add : ℕ → Queue → Queue
add count q =
    let accepted = min count (sub32 capacity q.size) in
    let size = u32 (q.size + accepted) in
    record q {
      entries = fill accepted 0 q q.entries;
      generated = u64 (q.generated + count);
      dropped = u64 (q.dropped + (count - accepted));
      size = size;
      maximum_backlog = max q.maximum_backlog size;
    }

unfoldable pub pop : Queue → Queue × Option ℕ
pop q = if q.size == 0 then (q, none) else (
  record q {
    head = u32 (q.head + 1) % capacity;
    size = sub32 q.size 1;
    consumed = u64 (q.consumed + 1);
  },
  some (get_or q.entries q.head 0),
)
