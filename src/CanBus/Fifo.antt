-- ===== src/CanBus/Fifo.antt =====
-- The contract of the acquisition ring: a queue of at most `capacity` frames, oldest first, that
-- drops the newest frame when it is full.
use esp32_vehicle_can_core.Prelude.{
  ℕ, Bool, true, false, Option, none, some, List, [], ◌∷◌, ◌++◌, ◌==◌, if◌then◌else◌, length,
}

pub data Op (A : Type 0) : Type 0 where
  put : A → Op A
  get : Op A

pub data Reply (A : Type 0) : Type 0 where
  accepted : Bool → Reply A
  delivered : Option A → Reply A

module _ {A : Type 0} where
  unfoldable pub push : ℕ → List A → A → List A × Bool
  push capacity q x = if length q == capacity then (q, false) else (q ++ (x ∷ []), true)

  unfoldable pub pop : List A → List A × Option A
  pop [] = ([], none)
  pop (x ∷ q) = (q, some x)

  unfoldable pub run : ℕ → List A → List (Op A) → List (Reply A)
  run capacity q [] = []
  run capacity q (put x ∷ ops) = let (q', b) = push capacity q x in accepted b ∷ run capacity q' ops
  run capacity q (get ∷ ops) = let (q', o) = pop q in delivered o ∷ run capacity q' ops
