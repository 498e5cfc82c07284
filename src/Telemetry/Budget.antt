-- ===== src/Telemetry/Budget.antt =====
-- components/vehicle_telemetry/src/runtime_budget.hpp. Timestamps are uint64_t; the two counters
-- are uint32_t.
pub mod Bounds
use esp32_vehicle_can_core.Prelude.{
  ℕ, ◌+◌, ◌-◌, Bool, not, ◌&&◌, ◌||◌, Option, none, some, List, [], ◌∷◌, leb, if◌then◌else◌, u32,
}
use esp32_vehicle_can_core.Telemetry.Types.{RuntimeConfig}

pub data BudgetAction : Type 0 where
  go_on checkpoint pause : BudgetAction

pub record WorkBudget : Type 0 where
  pub receive_calls : ℕ
  pub batch_frames : ℕ
  pub batch_started : ℕ
  pub runnable_started : ℕ

unfoldable pub new_budget : ℕ → WorkBudget
new_budget now = record {
  receive_calls = 0;
  batch_frames = 0;
  batch_started = now;
  runnable_started = now;
}

-- The subtraction is reached behind the first test only.
abbrev pub elapsed : ℕ → ℕ → ℕ → Bool
elapsed now start limit = leb start now && leb limit (now - start)

unfoldable pub after_receive : RuntimeConfig → Bool → ℕ → WorkBudget → WorkBudget × BudgetAction
after_receive config frame now b =
    let calls = u32 (b.receive_calls + 1) in
    let frames = if frame then u32 (b.batch_frames + 1) else b.batch_frames in
    if leb config.max_runnable_receive_calls calls
      || elapsed now b.runnable_started config.max_runnable_time_us
    then (record b { receive_calls = calls; batch_frames = frames }, pause)
    else if not frame
        || leb config.max_frames_per_batch frames
        || elapsed now b.batch_started config.max_batch_time_us
    then (record b { receive_calls = calls; batch_frames = 0; batch_started = now }, checkpoint)
    else (record b { receive_calls = calls; batch_frames = frames }, go_on)

unfoldable pub after_pause : ℕ → WorkBudget → WorkBudget
after_pause now b = record b {
  receive_calls = 0;
  batch_frames = 0;
  runnable_started = now;
  batch_started = now;
}

-- `next` unless the answer is a pause, or unless it ends the batch.
abbrev pub unless_pause : BudgetAction → Option WorkBudget → Option WorkBudget
unless_pause pause next = none
unless_pause _ next = next

abbrev pub unless_ended : BudgetAction → Option WorkBudget → Option WorkBudget
unless_ended go_on next = next
unless_ended _ next = none

-- The worker's calls of `after_receive` in turn, each with whether a frame came and the time: the
-- budget after them if none asks for a pause, or if all of them are of one batch.
unfoldable pub unpaused : RuntimeConfig → List (Bool × ℕ) → WorkBudget → Option WorkBudget
unpaused config [] b = some b
unpaused config ((frame, now) ∷ later) b =
    let (b', action) = after_receive config frame now b in
    let rest = unpaused config later b' in unless_pause action rest

unfoldable pub one_batch : RuntimeConfig → List (Bool × ℕ) → WorkBudget → Option WorkBudget
one_batch config [] b = some b
one_batch config ((frame, now) ∷ later) b =
    let (b', action) = after_receive config frame now b in
    let rest = one_batch config later b' in unless_ended action rest
