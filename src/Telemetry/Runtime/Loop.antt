-- ===== src/Telemetry/Runtime/Loop.antt =====
-- The worker of components/vehicle_telemetry/src/runtime.cpp: run_loop, its budget pauses and its
-- end. `others` is what other tasks do while the worker waits, in the round with that much fuel left.
use esp32_vehicle_can_core.Prelude.{
  ℕ, zero, suc, ◌+◌, ◌*◌, ◌/◌, Bool, true, false, not, Option, none, some, if◌then◌else◌, u64,
}
use esp32_vehicle_can_core.VehicleCore.Frame.{RawCanFrame}
use esp32_vehicle_can_core.Telemetry.Types.{LifecycleState, ReceiveStatus}
use esp32_vehicle_can_core.Telemetry.Budget.{
  BudgetAction, go_on, checkpoint, pause, WorkBudget, new_budget, after_receive, after_pause,
}
use esp32_vehicle_can_core.Telemetry.Runtime.{
  Surroundings, Runtime, is_fault, frame_received, timed_out_received, fault_received,
  refresh_checkpoint,
}

abbrev pub is_frame : ReceiveStatus → Bool
is_frame ReceiveStatus.frame = true
is_frame _ = false

module _ (E : Surroundings) where
  abbrev report : Runtime E → Runtime E
  report r = record r { world = E.on_diagnostics r.diagnostics r.world }

  abbrev latch : Runtime E → Runtime E
  latch r = record r { lifecycle = LifecycleState.faulted; stop_requested = true }

  -- A frame is processed and both callbacks are made before anything else is looked at.
  unfoldable pub handle_frame : RawCanFrame → ℕ → Runtime E → Runtime E
  handle_frame frame receive_time_us r =
      let (w, result) = E.process frame r.world in
      let r1 = frame_received E receive_time_us result (record r { world = w }) in
      let r2 = report (record r1 { world = E.on_frame_processed frame result r1.world }) in
      if is_fault result then latch r2 else r2

  unfoldable pub handle : ReceiveStatus → RawCanFrame → ℕ → Runtime E → Runtime E
  handle ReceiveStatus.frame frame t r = handle_frame frame t r
  handle ReceiveStatus.timeout frame t r = report (timed_out_received E r)
  handle ReceiveStatus.fault frame t r = latch (report (fault_received E t r))
  handle ReceiveStatus.not_started frame t r = latch (report (fault_received E t r))

  -- One round of the inner loop up to its last test, and whether a frame was received.
  unfoldable pub poll : (Runtime E → Runtime E) → Runtime E → Runtime E × Bool
  poll others r =
      let (w, status, frame) = E.source_receive r.config.receive_timeout_ms r.world in
      let r1 = others (record r { world = w }) in
      let (w1, receive_time_us) = E.clock_now r1.world in
      let r2 = record r1 { world = w1 } in
      (if r2.stop_requested then r2 else handle status frame receive_time_us r2, is_frame status)

  -- The delays of a pause, each of one tick; the answer is whether no stop was requested.
  unfoldable pub delays : (Runtime E → Runtime E) → ℕ → Runtime E → Runtime E × Bool
  delays others zero r = (r, not r.stop_requested)
  delays others (suc remaining) r =
      let rest = delays others remaining (others r) in if r.stop_requested then (r, false) else rest

  unfoldable pub budget_pause : (Runtime E → Runtime E) → Runtime E → Runtime E × Bool
  budget_pause others r =
      let ticks = (r.config.budget_pause_ms * E.tick_rate_hz + 999) / 1000 in
      let d = r.diagnostics in
      if r.stop_requested
      then (r, false)
      else delays others ticks (record r {
        diagnostics = record d { work_budget_pauses = u64 (d.work_budget_pauses + 1) };
      })

  abbrev pub resumed : WorkBudget → Runtime E × Bool → Runtime E × WorkBudget × Bool
  resumed budget (r, goes_on) =
      let (w, now) = E.system_now r.world in
      let r1 = record r { world = w } in
      if goes_on then (r1, after_pause now budget, not r1.stop_requested) else (r, budget, false)

  abbrev pub acted :
      (Runtime E → Runtime E)
      → BudgetAction
      → WorkBudget
      → Runtime E
      → Runtime E × WorkBudget × Bool
  acted others go_on budget r = (r, budget, true)
  acted others checkpoint budget r =
      let r1 = refresh_checkpoint E r in (r1, budget, not r1.stop_requested)
  acted others pause budget r = resumed budget (budget_pause others (refresh_checkpoint E r))

  -- The budget after a round in which no stop was requested, and whether the loops go on: the inner
  -- one at once, the outer one after its test.
  unfoldable pub after_poll :
      (Runtime E → Runtime E) → Bool → WorkBudget → Runtime E → Runtime E × WorkBudget × Bool
  after_poll others frame budget r =
      let (w, now) = E.system_now r.world in
      let (budget', action) = after_receive r.config frame now budget in
      acted others action budget' (record r { world = w })

  -- Both loops of `run_loop`, round by round; `none` means that the worker still runs.
  unfoldable pub rounds :
      (ℕ → Runtime E → Runtime E) → ℕ → WorkBudget → Runtime E → Option (Runtime E)
  rounds others zero budget r = none
  rounds others (suc fuel) budget r =
      let (r1, frame) = poll (others fuel) r in
      let (r2, budget', goes_on) = after_poll (others fuel) frame budget r1 in
      let rest = rounds others fuel budget' r2 in
      if r1.stop_requested then some r1 else if goes_on then rest else some r2

  unfoldable pub run_loop : (ℕ → Runtime E → Runtime E) → ℕ → Runtime E → Option (Runtime E)
  run_loop others fuel r =
      let (w, now) = E.system_now r.world in
      let r1 = record r { world = w } in
      if r1.stop_requested then some r1 else rounds others fuel (new_budget now) r1

  abbrev pub retired : Option (Runtime E) → Option (Runtime E)
  retired none = none
  retired (some r) = some (record r { worker_active = false })

  unfoldable pub task_entry : (ℕ → Runtime E → Runtime E) → ℕ → Runtime E → Option (Runtime E)
  task_entry others fuel r = retired (run_loop others fuel r)
