-- ===== src/Baseline/Queue/Refine.antt =====
-- The queue of tools/runtime_baseline/fixture.hpp as the bounded queue of CanBus/Fifo, to which the
-- sequence numbers are offered one by one.
use native.Mathlib.Decide.{dec_lt}
use esp32_vehicle_can_core.Prelude.{
  ℕ, zero, suc, ◌+◌, ◌-◌, ◌%◌, ◌≤◌, ◌<◌, ◌≡◌, ◌≢◌, refl, ap, sym, ◌∙◌, Option, List, [], ◌∷◌, ◌++◌,
  arith, length, length-set, set, u32, u64, sub32, window, length-window, window-pos, window-set,
  window-mod,
}
use esp32_vehicle_can_core.CanBus.Fifo
use esp32_vehicle_can_core.Baseline.Queue.{Queue, capacity, min, fill, add, pop}
use esp32_vehicle_can_core.Baseline.Queue.Invariant.{
  IsValid, accepted_lem, add-IsValid, pop-IsValid,
}

-- The numbers that the queue holds, oldest first.
abbrev pub contents : Queue → List ℕ
contents q = window 0 capacity q.entries q.head q.size

-- `count` numbers from `first` on, offered to the bounded queue in turn.
unfoldable pub offer : ℕ → ℕ → List ℕ → List ℕ
offer zero first xs = xs
offer (suc n) first xs = offer n (first + 1) (Fifo.push capacity xs (u64 first)).0

push_room :
    (xs : List ℕ) (x : ℕ) → length xs ≢ capacity → (Fifo.push capacity xs x).0 ≡ xs ++ (x ∷ [])
unfolding Fifo.push
push_room xs x h = ground arith

offer-full : (n first : ℕ) (xs : List ℕ) → length xs ≡ capacity → offer n first xs ≡ xs
unfolding offer Fifo.push
offer-full zero first xs h = refl
offer-full (suc n) first xs h = rw h (offer-full n (first + 1) xs h)

offer-add :
    (m n first : ℕ) (xs : List ℕ) → offer (m + n) first xs ≡ offer n (first + m) (offer m first xs)
unfolding offer
offer-add zero n first xs =
    let none_before : 0 + n ≡ n = omega arith in
    let same : first + 0 ≡ first = omega arith in rw (none_before, same)
offer-add (suc m) n first xs =
    let eq : suc m + n ≡ suc (m + n) = omega arith in
    let next : first + 1 + m ≡ first + suc m = omega arith in
    rw (eq, ← next) (offer-add m n (first + 1) _)

-- A loop that stays within the room offers its numbers one by one.
window-fill :
    (n i : ℕ) (q : Queue) (es : List ℕ)
    → length es ≡ capacity
    → q.head < capacity
    → q.size + i + n ≤ capacity
    → window 0 capacity (fill n i q es) q.head (q.size + i + n)
      ≡ offer n (q.generated + i) (window 0 capacity es q.head (q.size + i))
unfolding fill offer
window-fill zero i q es stored at room = ap (window 0 capacity es q.head) (omega arith)
window-fill (suc n) i q es stored at room =
    let slot : ℕ = u32 (u32 (q.head + q.size) + i) % capacity in
    let number : ℕ = u64 (q.generated + i) in
    let es1 : List ℕ = set es slot number in
    let sum : q.size + i + suc n ≡ q.size + (i + 1) + n = omega arith in
    let one : q.size + (i + 1) ≡ suc (q.size + i) = omega arith in
    let next : q.generated + i + 1 ≡ q.generated + (i + 1) = omega arith in
    let placed : slot ≡ (q.head + (q.size + i)) % capacity = omega arith in
    let short : length (window 0 capacity es q.head (q.size + i)) ≢ capacity =
      omega (arith, length-window 0 capacity es q.head (q.size + i)) in
    let grown : window 0 capacity es1 q.head (q.size + (i + 1))
        ≡ window 0 capacity es q.head (q.size + i) ++ (number ∷ []) =
      ap (window 0 capacity es1 q.head) one
      ∙ window-set 0 capacity es number (q.size + i) q.head slot (omega arith) (omega arith)
          placed in
    let ih = window-fill n (i + 1) q es1 (length-set es slot number ∙ stored) at (omega arith) in
    rw (sum, next, push_room (window 0 capacity es q.head (q.size + i)) number short, ← grown) ih

-- `add` leaves the queue holding what the bounded queue holds once the numbers that `add` generates
-- have been offered to it in turn: those that fit, and none of those after them.
pub add_refines :
    (count : ℕ) (q : Queue)
    → IsValid q
    → contents (add count q) ≡ offer count q.generated (contents q)
unfolding add offer
add_refines count q v =
    let accepted : ℕ = min count (sub32 capacity q.size) in
    let (le, room, full) = accepted_lem count q v in
    let sum : u32 (q.size + accepted) ≡ q.size + 0 + accepted = omega arith in
    let start : q.generated + 0 ≡ q.generated = omega arith in
    let held : q.size + 0 ≡ q.size = omega arith in
    let filled : window 0 capacity (fill accepted 0 q q.entries) q.head (u32 (q.size + accepted))
        ≡ offer accepted q.generated (contents q) =
      rw sum
        (window-fill accepted 0 q q.entries v.storage v.head_in (omega arith) ∙ rw (start, held)) in
    let rest : offer (count - accepted) (q.generated + accepted)
          (offer accepted q.generated (contents q))
        ≡ offer accepted q.generated (contents q) =
      elim (dec_lt accepted count) [
        | yes lt ↦
            offer-full (count - accepted) (q.generated + accepted)
              (offer accepted q.generated (contents q))
              (ap length (sym filled)
                ∙ length-window 0 capacity _ q.head _
                ∙ omega (arith, full lt))
        | no ge ↦ let none_left : count - accepted ≡ 0 = omega arith in rw none_left
      ] in
    let all : accepted + (count - accepted) ≡ count = omega arith in
    filled
    ∙ sym rest
    ∙ sym (offer-add accepted (count - accepted) q.generated (contents q))
    ∙ ap (λ n. offer n q.generated (contents q)) all

generated-add : (count : ℕ) (q : Queue) → (add count q).generated ≡ u64 (q.generated + count)
unfolding add
generated-add count q = refl

generated-pop : (q : Queue) → (pop q).0.generated ≡ q.generated
unfolding pop
generated-pop q = ground arith

-- `pop` takes the oldest number, or finds the queue empty.
pub pop_refines :
    (q : Queue) → IsValid q → let (q', o) = pop q in (contents q', o) ≡ Fifo.pop (contents q)
unfolding pop Fifo.pop
pop_refines q v = elim (dec_lt 0 q.size) [
  | yes some_left ↦
      let slot : q.head % capacity ≡ q.head = omega arith in
      let left : sub32 q.size 1 ≡ q.size - 1 = omega arith in
      ground (
        arith,
        slot,
        left,
        window-pos 0 capacity q.entries q.head q.size (omega arith),
        window-mod 0 capacity q.entries (u32 (q.head + 1) % capacity) (q.head + 1) (q.size - 1)
            (omega arith),
      )
  | no none_left ↦ let none_held : q.size ≡ 0 = omega arith in ground (arith, none_held)
]

pub data Op : Type 0 where
  generate : ℕ → Op
  consume : Op

-- What the calls of `pop` deliver among calls of `add`, by the code and by the bounded queue.
unfoldable pub run : Queue → List Op → List (Option ℕ)
run q [] = []
run q (generate count ∷ ops) = run (add count q) ops
run q (consume ∷ ops) = let (q', o) = pop q in o ∷ run q' ops

unfoldable pub run_fifo : ℕ → List ℕ → List Op → List (Option ℕ)
run_fifo next xs [] = []
run_fifo next xs (generate count ∷ ops) = run_fifo (u64 (next + count)) (offer count next xs) ops
run_fifo next xs (consume ∷ ops) = let (xs', o) = Fifo.pop xs in o ∷ run_fifo next xs' ops

-- Any sequence of `add` and `pop` on a well-formed queue delivers what a bounded queue of 128
-- numbers delivers that is offered every generated number in turn and drops the newest when it is
-- full.
pub run_queue_refines :
    (q : Queue) (ops : List Op) → IsValid q → run q ops ≡ run_fifo q.generated (contents q) ops
unfolding run run_fifo
run_queue_refines q [] v = refl
run_queue_refines q (generate count ∷ ops) v =
    run_queue_refines (add count q) ops (add-IsValid count q v)
    ∙ rw (generated-add count q, add_refines count q v)
run_queue_refines q (consume ∷ ops) v =
    rw (run_queue_refines (pop q).0 ops (pop-IsValid q v), ← pop_refines q v, generated-pop q)
