-- ===== src/Baseline/Residency.antt =====
-- tools/runtime_baseline/task_residency.hpp: how long the worker stays selected on each core, and
-- firmware/runtime-synthetic-baseline/main/trace.cpp, which feeds it at each context switch. A task
-- is its handle, a number; 0 is no task.
pub mod Segments
pub mod Trace
pub mod Measuring
use mathlib.Core.List.{map}
use esp32_vehicle_can_core.Prelude.{
  ℕ, ◌+◌, ◌-◌, Bool, true, false, not, ◌&&◌, List, ltb, leb, ◌==◌, if◌then◌else◌, get_or, set,
  replicate, u64,
}

pub record Core : Type 0 where
  pub started_us : ℕ
  pub maximum_us : ℕ
  pub segments : ℕ
  pub reselections : ℕ
  pub active : Bool

abbrev pub no_core : Core
no_core = record { started_us = 0; maximum_us = 0; segments = 0; reselections = 0; active = false }

abbrev pub duration : ℕ → ℕ → ℕ
duration started_us now = if leb started_us now then now - started_us else 0

unfoldable pub close : ℕ → Core → Core
close now c =
    if c.active
    then record c {
      maximum_us =
          if ltb c.maximum_us (duration c.started_us now)
          then duration c.started_us now
          else c.maximum_us;
      segments = u64 (c.segments + 1);
      active = false;
    }
    else c

pub record TaskResidency : Type 0 where
  pub cores : List Core
  pub worker : ℕ
  pub enabled : Bool

-- `TaskResidency{}`
abbrev pub no_residency : TaskResidency
no_residency = record { cores = replicate 2 no_core; worker = 0; enabled = false }

-- What `select` does to the core on which the new task was selected, the worker being known.
unfoldable pub select_core : ℕ → ℕ → ℕ → ℕ → Core → Core
unfolding close
select_core worker old_task new_task selected_us core =
    let closed = if old_task == worker then close selected_us core else core in
    if old_task == new_task
    then (if new_task == worker && not (worker == 0)
        then record core { reselections = u64 (core.reselections + 1) }
        else core)
    else if new_task == worker && not (worker == 0)
    then record closed { started_us = selected_us; active = true }
    else closed

unfoldable pub select : ℕ → ℕ → ℕ → ℕ → Bool → TaskResidency → TaskResidency
select cpu old_task new_task selected_us new_is_worker t =
    let worker = if new_is_worker && t.worker == 0 then new_task else t.worker in
    if leb 2 cpu then t else record t {
      cores =
          set t.cores cpu
            (select_core worker old_task new_task selected_us (get_or t.cores cpu no_core));
      worker = worker;
    }

unfoldable pub finish : ℕ → TaskResidency → TaskResidency
finish now t = record t { cores = map (close now) t.cores }
