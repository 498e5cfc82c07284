-- ===== src/Tests/Ring.antt =====
-- A ring of two slots in use, by one thread and by two.
use esp32_vehicle_can_core.Prelude.{
  ℕ, zero, suc, ◌%◌, ◌≤◌, ◌≡◌, ◌≢◌, refl, true, false, none, some, List, [], ◌∷◌, ◌++◌, arith,
  length,
}
use esp32_vehicle_can_core.VehicleCore.Frame.{RawCanFrame}
use esp32_vehicle_can_core.CanBus.Types.{no_counts, snapshot_and_reset, take_snapshot}
use esp32_vehicle_can_core.CanBus.Fifo
use esp32_vehicle_can_core.CanBus.Fifo.{Op, put, get, Reply, accepted, delivered}
use esp32_vehicle_can_core.CanBus.Ring.{
  FrameRing, RingIndex, head_index, tail_index, fresh_ring, push, pop, snapshot, coherent_depth,
}
use esp32_vehicle_can_core.CanBus.Ring.Invariant.{Inv, distance, fresh_ring-Inv, push-Inv}
use esp32_vehicle_can_core.CanBus.Ring.Window.{contents}
use esp32_vehicle_can_core.CanBus.Ring.Refine.{run, run_refines, snapshot_lem}
use esp32_vehicle_can_core.CanBus.Ring.Interleaving.{
  System, Push, Pop, produce, consume, Reach, begin, then,
}
use esp32_vehicle_can_core.CanBus.Ring.Threads.{fifo_order, no_slot_race}
use esp32_vehicle_can_core.Tests.Frames.{frame_of, two-IsFit}

-- One frame in, two frames in.
abbrev one_held : FrameRing
one_held = (push 2 (fresh_ring 2) (frame_of 1)).0

one_held-Inv : Inv 2 one_held
one_held-Inv = push-Inv 2 (fresh_ring 2) (frame_of 1) (omega arith) (fresh_ring-Inv 2)

abbrev two_held : FrameRing
two_held = (push 2 one_held (frame_of 2)).0

two_held-Inv : Inv 2 two_held
two_held-Inv = push-Inv 2 one_held (frame_of 2) (omega arith) one_held-Inv

-- The two frames come out in order.
f_order :
    run 2
      (fresh_ring 2)
      (put (frame_of 1) ∷ put (frame_of 2) ∷ put (frame_of 3) ∷ get ∷ get ∷ get ∷ [])
    ≡ accepted true
      ∷ accepted true
      ∷ accepted false
      ∷ delivered (some (frame_of 1))
      ∷ delivered (some (frame_of 2))
      ∷ delivered none
      ∷ []
unfolding run push pop fresh_ring
f_order = refl

abbrev calls : List (Op RawCanFrame)
calls = put (frame_of 3) ∷ get ∷ put (frame_of 4) ∷ get ∷ get ∷ get ∷ []

run_refines_example : run 2 two_held calls ≡ Fifo.run 2 (contents 2 two_held) calls
run_refines_example = run_refines 2 two_held calls two-IsFit two_held-Inv

snapshot_lem_example :
    let (r', s) = snapshot 2 two_held snapshot_and_reset in
    (s.counters ≡ two_held.counters)
    × (s.queue_depth ≡ length (contents 2 two_held))
    × (s.queue_depth ≤ s.queue_high_watermark)
    × (s.queue_high_watermark ≤ s.queue_capacity_reported)
    × (contents 2 r' ≡ contents 2 two_held)
    × (snapshot_and_reset ≡ take_snapshot → r' ≡ two_held)
    × (snapshot_and_reset ≡ snapshot_and_reset
        → (r'.counters ≡ no_counts) × (r'.queue_high_watermark ≡ s.queue_depth))
snapshot_lem_example = snapshot_lem 2 two_held snapshot_and_reset two-IsFit two_held-Inv

-- A reader whose first sample the consumer disturbs and whose second is coherent.
abbrev loads : ℕ → RingIndex → ℕ
loads n head_index = 7
loads zero tail_index = 5
loads (suc n) tail_index = 6

f_loads : coherent_depth 2 loads 3 0 ≡ some 1
unfolding coherent_depth
f_loads = refl

-- The producer puts a frame in, and begins with the next one while the consumer takes the first.
abbrev both_at_work : (s : System) × Reach 2 s
unfolding fresh_ring
both_at_work =
    let entered = then begin (produce (Push.enter (frame_of 1))) in
    let loaded = then (then entered (produce Push.load_head)) (produce Push.load_tail) in
    let stored = then (then loaded (produce (Push.write (omega arith)))) (produce Push.publish) in
    let done = then stored (produce (Push.raise 1 (omega arith))) in
    let again = then (then done (consume Pop.load_tail)) (produce (Push.enter (frame_of 2))) in
    let found = then again (consume (Pop.find (λ e. omega (arith, e)))) in
    (_, then (then found (produce Push.load_head)) (produce Push.load_tail))

fifo_order_example :
    (both_at_work.0.sent ≡ both_at_work.0.taken ++ contents 2 both_at_work.0.ring)
    × (distance both_at_work.0.ring ≤ 2)
fifo_order_example = fifo_order 2 two-IsFit both_at_work.1

no_slot_race_example : 1 % 2 ≢ 0 % 2
unfolding fresh_ring
no_slot_race_example =
    no_slot_race 2 two-IsFit (frame_of 2) 1 0 0 both_at_work.1 refl (omega arith) refl
