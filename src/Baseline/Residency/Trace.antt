-- ===== src/Baseline/Residency/Trace.antt =====
-- firmware/runtime-synthetic-baseline/main/trace.cpp: the wrapper round the context switch, with
-- CONFIG_BASELINE_SCHEDULER_TRACE set or not. What runs under the trace's lock is one step. A C
-- string is the list of its bytes before the terminating zero; pcTaskGetName is an argument.
use esp32_vehicle_can_core.Prelude.{
  ℕ, zero, suc, ◌+◌, ◌-◌, ◌≡◌, ◌≢◌, ◌↔◌, refl, Bool, true, false, ◌&&◌, List, [], ◌∷◌, arith, ◌==◌,
  if◌then◌else◌, take, u32,
}
use esp32_vehicle_can_core.Baseline.Residency.{TaskResidency, no_residency, select, finish}

-- The loop of `is_worker` over what is left of both names, and its last test.
unfoldable pub matches : ℕ → List ℕ → List ℕ → Bool
matches zero worker_name [] = true
matches zero worker_name (_ ∷ _) = false
matches (suc remaining) [] [] = true
matches (suc remaining) [] (_ ∷ _) = false
matches (suc remaining) (w ∷ worker_name) [] = false
matches (suc remaining) (w ∷ worker_name) (n ∷ name) =
    if n == w then matches remaining worker_name name else false

unfoldable pub is_worker : ℕ → List ℕ → (ℕ → List ℕ) → ℕ → Bool
is_worker max_task_name_len worker_name task_name task =
    if task == 0 then false else matches (max_task_name_len - 1) worker_name (task_name task)

matches_sound :
    (n : ℕ) (worker_name name : List ℕ)
    → matches n worker_name name ≡ true
    → name ≡ take n worker_name
unfolding matches
matches_sound zero ws [] h = refl
matches_sound zero ws (_ ∷ _) h = cc
matches_sound (suc n) [] [] h = refl
matches_sound (suc n) [] (_ ∷ _) h = cc
matches_sound (suc n) (w ∷ ws) [] h = cc
matches_sound (suc n) (w ∷ ws) (x ∷ xs) h = ground (arith, matches_sound n ws xs)

matches_complete :
    (n : ℕ) (worker_name : List ℕ) → matches n worker_name (take n worker_name) ≡ true
unfolding matches
matches_complete zero ws = refl
matches_complete (suc n) [] = refl
matches_complete (suc n) (w ∷ ws) = ground (arith, matches_complete n ws)

-- `is_worker` accepts exactly the tasks that exist and whose name is the worker's as FreeRTOS keeps
-- it, cut off after configMAX_TASK_NAME_LEN - 1 bytes.
pub is_worker_iff :
    (max_task_name_len : ℕ) (worker_name : List ℕ) (task_name : ℕ → List ℕ) (task : ℕ)
    → (is_worker max_task_name_len worker_name task_name task ≡ true)
      ↔ ((task ≢ 0) × (task_name task ≡ take (max_task_name_len - 1) worker_name))
unfolding is_worker
is_worker_iff len ws task_name task = (
  λ h. ground (arith, matches_sound (len - 1) ws (task_name task)),
  λ (exists, same). ground (arith, matches_complete (len - 1) ws),
)

pub record Trace : Type 0 where
  pub residency : TaskResidency
  pub measuring : Bool
  pub watchdog_events : ℕ

unfoldable pub esp_task_wdt_isr_user_handler : Trace → Trace
esp_task_wdt_isr_user_handler t =
    if t.measuring then record t { watchdog_events = u32 (t.watchdog_events + 1) } else t

-- The argument is whether CONFIG_BASELINE_SCHEDULER_TRACE is set.
unfoldable pub baseline_trace_begin : Bool → Trace → Trace
baseline_trace_begin scheduler_trace t = record {
  residency = record no_residency { enabled = scheduler_trace };
  measuring = true;
  watchdog_events = 0;
}

unfoldable pub baseline_trace_end : ℕ → Trace → Trace × TaskResidency
baseline_trace_end now t =
    let residency = finish now t.residency in
    (record t { residency = residency; measuring = false }, residency)

unfoldable pub baseline_watchdog_events : Trace → ℕ
baseline_watchdog_events t = t.watchdog_events

-- The wrapper, once the scheduler has selected `new_task` at `selected`.
unfoldable pub switch_context : (ℕ → Bool) → ℕ → ℕ → ℕ → ℕ → Trace → Trace
switch_context names_worker cpu old_task new_task selected t =
    let new_is_worker = t.residency.worker == 0 && names_worker new_task in
    if t.measuring
    then record t { residency = select cpu old_task new_task selected new_is_worker t.residency }
    else t
