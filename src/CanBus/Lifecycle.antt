-- ===== src/CanBus/Lifecycle.antt =====
-- components/can_bus/private_include/can_bus/lifecycle.hpp: who owns the driver and the task.
pub mod Laws
use esp32_vehicle_can_core.Prelude.{Bool, true, false, not, ◌&&◌, List, [], ◌∷◌, if◌then◌else◌}
use esp32_vehicle_can_core.CanBus.Types.{LifecycleState, stopped, running, stopping, faulted}

pub record LifecycleController : Type 0 where
  pub state : LifecycleState
  pub driver_installed : Bool
  pub driver_started : Bool
  pub task_owned : Bool

abbrev pub new_controller : LifecycleController
new_controller = record {
  state = stopped;
  driver_installed = false;
  driver_started = false;
  task_owned = false;
}

abbrev pub is_stopped : LifecycleState → Bool
is_stopped stopped = true
is_stopped _ = false

unfoldable pub begin_start : LifecycleController → LifecycleController × Bool
begin_start c = if is_stopped c.state then (record c { state = running }, true) else (c, false)

unfoldable pub abort_start : LifecycleController → LifecycleController
abort_start c =
    if not c.driver_installed && not c.task_owned then record c { state = stopped } else c

abbrev pub mark_driver_installed : LifecycleController → LifecycleController
mark_driver_installed c = record c { driver_installed = true }

abbrev pub mark_driver_started : LifecycleController → LifecycleController
mark_driver_started c = record c { driver_started = true }

abbrev pub mark_task_created : LifecycleController → LifecycleController
mark_task_created c = record c { task_owned = true }

abbrev pub mark_driver_stopped : LifecycleController → LifecycleController
mark_driver_stopped c = record c { driver_started = false }

abbrev pub mark_driver_uninstalled : LifecycleController → LifecycleController
mark_driver_uninstalled c = record c { driver_installed = false }

abbrev pub acknowledge_task : LifecycleController → LifecycleController
acknowledge_task c = record c { task_owned = false }

-- The loops of `begin_stop` and `latch_fault` retry a weak compare-exchange. `seen` lists the states
-- that the exchanges that fail find there: one that another thread stored, or the old one after a
-- spurious failure. Then an exchange succeeds.
unfoldable pub begin_stop_loop :
    List LifecycleState → LifecycleState → LifecycleController → LifecycleController × Bool
begin_stop_loop [] current c = elim current [
  | stopped ↦ (c, false)
  | stopping ↦ (c, true)
  | _ ↦ (record c { state = stopping }, true)
]
begin_stop_loop (now ∷ seen) current c =
    let again = begin_stop_loop seen now (record c { state = now }) in
    elim current [ stopped ↦ (c, false) | stopping ↦ (c, true) | _ ↦ again ]

unfoldable pub begin_stop : LifecycleController → LifecycleController × Bool
unfolding begin_stop_loop
begin_stop c = begin_stop_loop [] c.state c

unfoldable pub latch_fault_loop :
    List LifecycleState → LifecycleState → LifecycleController → LifecycleController × Bool
latch_fault_loop [] current c = elim current [
  | faulted ↦ (c, false)
  | stopped ↦ (c, false)
  | _ ↦ (record c { state = faulted }, true)
]
latch_fault_loop (now ∷ seen) current c =
    let again = latch_fault_loop seen now (record c { state = now }) in
    elim current [ faulted ↦ (c, false) | stopped ↦ (c, false) | _ ↦ again ]

unfoldable pub latch_fault : LifecycleController → LifecycleController × Bool
unfolding latch_fault_loop
latch_fault c = latch_fault_loop [] c.state c

unfoldable pub reconcile : LifecycleController → LifecycleController
reconcile c =
    if c.task_owned
    then record c { state = stopping }
    else if c.driver_installed
    then record c { state = faulted }
    else record c { state = stopped }
