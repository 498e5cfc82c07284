-- ===== src/Baseline/Queue/Invariant.antt =====
-- What always holds of the queue of tools/runtime_baseline/fixture.hpp.
use esp32_vehicle_can_core.Prelude.{
  ℕ, zero, suc, ◌+◌, ◌^◌, ◌≤◌, ◌<◌, ◌≡◌, refl, List, arith, length, length-set, length-replicate,
  u64, sub32,
}
use esp32_vehicle_can_core.Baseline.Queue.{Queue, capacity, empty_queue, min, fill, add, pop}

-- The places are in range, no more than the capacity is ever held, and every number generated has
-- been consumed, has been dropped or is held.
pub record IsValid (q : Queue) : Type 0 where
  pub head_in : q.head < capacity
  pub fits : q.size ≤ q.maximum_backlog
  pub peak : q.maximum_backlog ≤ capacity
  pub storage : length q.entries ≡ capacity
  pub generated_in : q.generated < 2 ^ 64
  pub balance : q.generated ≡ u64 (q.consumed + q.dropped + q.size)

pub empty_queue-IsValid : IsValid empty_queue
empty_queue-IsValid = record {
  head_in = omega arith;
  fits = omega arith;
  peak = omega arith;
  storage = length-replicate {A = ℕ} 128 0;
  generated_in = omega arith;
  balance = omega arith;
}

pub length-fill : (n i : ℕ) (q : Queue) (es : List ℕ) → length (fill n i q es) ≡ length es
unfolding fill
length-fill zero i q es = refl
length-fill (suc n) i q es =
    omega (arith, length-fill n (i + 1) q _, length-set es _ (u64 (q.generated + i)))

-- What `add` takes in: all, or what there is room for.
pub accepted_lem :
    (count : ℕ) (q : Queue)
    → IsValid q
    → let accepted = min count (sub32 capacity q.size) in
      (accepted ≤ count)
      × (q.size + accepted ≤ capacity)
      × (accepted < count → q.size + accepted ≡ capacity)
accepted_lem count q v = ground arith

pub add-IsValid : (count : ℕ) (q : Queue) → IsValid q → IsValid (add count q)
unfolding add
add-IsValid count q v =
    ground (arith, length-fill (min count (sub32 capacity q.size)) 0 q q.entries)

pub pop-IsValid : (q : Queue) → IsValid q → IsValid (pop q).0
unfolding pop
pop-IsValid q v = ground arith

pub consumed-add : (count : ℕ) (q : Queue) → (add count q).consumed ≡ q.consumed
unfolding add
consumed-add count q = refl
