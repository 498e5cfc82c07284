-- ===== src/CanBus/Lifecycle/Laws.antt =====
-- What the operations of LifecycleController decide, also where other threads interfere.
use esp32_vehicle_can_core.Prelude.{◌≡◌, ◌↔◌, ◌⊎◌, true, false, List, [], ◌∷◌, arith}
use esp32_vehicle_can_core.CanBus.Types.{LifecycleState, stopped, running, stopping, faulted}
use esp32_vehicle_can_core.CanBus.Lifecycle.{
  LifecycleController, begin_start, begin_stop_loop, latch_fault_loop, reconcile,
}

-- The flags of ownership, which only their own operations change.
abbrev pub SameOwners : LifecycleController → LifecycleController → Type 0
SameOwners c d =
    (d.driver_installed ≡ c.driver_installed)
    × (d.driver_started ≡ c.driver_started)
    × (d.task_owned ≡ c.task_owned)

-- Whatever states other threads store between its exchanges, `begin_stop` returns; it answers
-- false exactly if the controller is stopped when it returns, and otherwise the controller is
-- stopping; who owns the driver and the task does not change.
pub begin_stop_loop_lem :
    (seen : List LifecycleState) (c : LifecycleController)
    → let (d, accepted) = begin_stop_loop seen c.state c in
      (((accepted ≡ false) × (d.state ≡ stopped)) ⊎ ((accepted ≡ true) × (d.state ≡ stopping)))
      × SameOwners c d
unfolding begin_stop_loop
begin_stop_loop_lem [] c = ground arith
begin_stop_loop_lem (now ∷ seen) c =
    ground (arith, begin_stop_loop_lem seen (record c { state = now }))

-- Whatever states other threads store between its exchanges, `latch_fault` returns; it answers true
-- only with the controller faulted, which without interference was running or stopping before, and
-- false only with the controller faulted or stopped; who owns the driver and the task does not
-- change.
pub latch_fault_loop_lem :
    (seen : List LifecycleState) (c : LifecycleController)
    → let (d, latched) = latch_fault_loop seen c.state c in
      (((latched ≡ true) × (d.state ≡ faulted))
        ⊎ ((latched ≡ false) × ((d.state ≡ faulted) ⊎ (d.state ≡ stopped))))
      × (seen ≡ [] → latched ≡ true → (c.state ≡ running) ⊎ (c.state ≡ stopping))
      × SameOwners c d
unfolding latch_fault_loop
latch_fault_loop_lem [] c = ground arith
latch_fault_loop_lem (now ∷ seen) c =
    ground (arith, latch_fault_loop_lem seen (record c { state = now }))

-- After a cleanup attempt the controller can be started again exactly if neither the task nor the
-- driver is owned any more.
pub begin_start-reconcile :
    (c : LifecycleController)
    → ((begin_start (reconcile c)).1 ≡ true)
      ↔ ((c.task_owned ≡ false) × (c.driver_installed ≡ false))
unfolding begin_start reconcile
begin_start-reconcile c = ground arith
