-- ===== src/Telemetry/Runtime/Reporting.antt =====
-- What the worker of components/vehicle_telemetry/src/runtime.cpp reports, and when it ends.
use esp32_vehicle_can_core.Prelude.{
  ℕ, zero, suc, ◌+◌, ◌≤◌, ◌<◌, ◌≡◌, ◌≢◌, refl, ◌∙◌, ◌⊎◌, inl, inr, Bool, true, false, some, arith,
  Bool-cases, u64,
}
use esp32_vehicle_can_core.VehicleCore.Frame.{RawCanFrame}
use esp32_vehicle_can_core.VehicleCore.Health.{TransportHealth, live, timed_out}
use esp32_vehicle_can_core.Telemetry.Types.{
  LifecycleState, ReceiveStatus, ProcessStatus, TransportDiagnostics,
}
use esp32_vehicle_can_core.Telemetry.Budget.{WorkBudget, new_budget}
use esp32_vehicle_can_core.Telemetry.Runtime.{
  Surroundings, Runtime, count_result, refresh_if_due, frame_received, fault_received,
  update_silence, read_diagnostics,
}
use esp32_vehicle_can_core.Telemetry.Runtime.Loop.{
  handle_frame, handle, poll, after_poll, rounds, run_loop, task_entry,
}

-- The counters before and after, by the result of the frame between them.
abbrev pub Advanced : ProcessStatus → TransportDiagnostics → TransportDiagnostics → Type 0
Advanced ProcessStatus.processed d d' =
    (d'.frames_processed ≡ u64 (d.frames_processed + 1))
    × (d'.frames_ignored ≡ d.frames_ignored)
    × (d'.frames_malformed ≡ d.frames_malformed)
    × (d'.processor_faults ≡ d.processor_faults)
Advanced ProcessStatus.ignored d d' =
    (d'.frames_processed ≡ d.frames_processed)
    × (d'.frames_ignored ≡ u64 (d.frames_ignored + 1))
    × (d'.frames_malformed ≡ d.frames_malformed)
    × (d'.processor_faults ≡ d.processor_faults)
Advanced ProcessStatus.malformed d d' =
    (d'.frames_processed ≡ d.frames_processed)
    × (d'.frames_ignored ≡ d.frames_ignored)
    × (d'.frames_malformed ≡ u64 (d.frames_malformed + 1))
    × (d'.processor_faults ≡ d.processor_faults)
Advanced ProcessStatus.fault d d' =
    (d'.frames_processed ≡ d.frames_processed)
    × (d'.frames_ignored ≡ d.frames_ignored)
    × (d'.frames_malformed ≡ d.frames_malformed)
    × (d'.processor_faults ≡ u64 (d.processor_faults + 1))

module _ (E : Surroundings) where
  -- A reader of the diagnostics of a running runtime is told that the transport timed out once the
  -- silence since the last frame has reached the timeout, that boundary included; before, and for a
  -- clock that went backwards, and before the first frame, and when not running, it is told what the
  -- worker last reported.
  pub read_diagnostics_lem :
      (r : Runtime E)
      → let now = (E.clock_now r.world).1 in
        let d = (read_diagnostics E r).1 in
        ((r.lifecycle ≡ LifecycleState.running)
          × (r.diagnostics.has_last_frame ≡ true)
          × (r.diagnostics.last_frame_us + r.config.transport_silence_timeout_us ≤ now)
          × (d ≡ record (r.diagnostics) { transport = timed_out }))
        ⊎ ((r.lifecycle ≢ LifecycleState.running) × (d ≡ r.diagnostics))
        ⊎ ((r.diagnostics.has_last_frame ≡ false) × (d ≡ r.diagnostics))
        ⊎ ((now < r.diagnostics.last_frame_us + r.config.transport_silence_timeout_us)
            × (d ≡ r.diagnostics))
  unfolding read_diagnostics update_silence
  read_diagnostics_lem r = ground arith

  frame_received_lem :
      (t : ℕ) (result : ProcessStatus) (r : Runtime E)
      → let r' = frame_received E t result r in
        Advanced result r.diagnostics r'.diagnostics
        × (r'.diagnostics.has_last_frame ≡ true)
        × (r'.diagnostics.last_frame_us ≡ t)
        × (r'.lifecycle ≡ r.lifecycle)
        × (r'.stop_requested ≡ r.stop_requested)
        × (result ≢ ProcessStatus.fault → r'.diagnostics.transport ≡ live)
        × (result ≡ ProcessStatus.fault
            → (r'.diagnostics.transport ≡ TransportHealth.faulted)
              × (r'.diagnostics.lifecycle ≡ LifecycleState.faulted))
  unfolding frame_received count_result refresh_if_due
  frame_received_lem t ProcessStatus.processed r = ground arith
  frame_received_lem t ProcessStatus.ignored r = ground arith
  frame_received_lem t ProcessStatus.malformed r = ground arith
  frame_received_lem t ProcessStatus.fault r = ground arith

  -- A frame advances the one counter of the diagnostics that its result names, modulo 2 ^ 64, and
  -- leaves the three others; it is the last frame seen, at the time of its receipt. Unless its processing faulted, the
  -- transport is live and the lifecycle and the request to stop stay as they were; if it did, the
  -- runtime is faulted and asked to stop.
  pub handle_frame_lem :
      (frame : RawCanFrame) (t : ℕ) (r : Runtime E)
      → let result = (E.process frame r.world).1 in
        let r' = handle_frame E frame t r in
        Advanced result r.diagnostics r'.diagnostics
        × (r'.diagnostics.has_last_frame ≡ true)
        × (r'.diagnostics.last_frame_us ≡ t)
        × (result ≢ ProcessStatus.fault
            → (r'.diagnostics.transport ≡ live)
              × (r'.lifecycle ≡ r.lifecycle)
              × (r'.stop_requested ≡ r.stop_requested))
        × (result ≡ ProcessStatus.fault
            → (r'.diagnostics.transport ≡ TransportHealth.faulted)
              × (r'.diagnostics.lifecycle ≡ LifecycleState.faulted)
              × (r'.lifecycle ≡ LifecycleState.faulted)
              × (r'.stop_requested ≡ true))
  unfolding handle_frame
  handle_frame_lem frame t r =
      let (w, result) = E.process frame r.world in
      let a = frame_received_lem t result (record r { world = w }) in ground (arith, a)

  -- What the source's receive answers in a round, and the state then.
  abbrev pub received : Runtime E → Runtime E × ReceiveStatus
  received r =
      let (w, status, frame) = E.source_receive r.config.receive_timeout_ms r.world in
      (record r { world = w }, status)

  -- A round in which the source fails, or reports that it was never started, and no stop was
  -- requested leaves the runtime faulted and asked to stop, and the diagnostics say so.
  pub poll_faults :
      (others : Runtime E → Runtime E) (r : Runtime E)
      → ((received r).1 ≡ ReceiveStatus.fault) ⊎ ((received r).1 ≡ ReceiveStatus.not_started)
      → (others (received r).0).stop_requested ≡ false
      → let r' = (poll E others r).0 in
        (r'.lifecycle ≡ LifecycleState.faulted)
        × (r'.stop_requested ≡ true)
        × (r'.diagnostics.lifecycle ≡ LifecycleState.faulted)
        × (r'.diagnostics.transport ≡ TransportHealth.faulted)
  unfolding poll handle fault_received
  poll_faults others r failed calm = ground arith

  -- The loops end.
  poll_stops :
      (others : Runtime E → Runtime E) (r : Runtime E)
      → ((r' : Runtime E) → (others r').stop_requested ≡ true)
      → (poll E others r).0.stop_requested ≡ true
  unfolding poll
  poll_stops others r asked =
      let (w, status, frame) = E.source_receive r.config.receive_timeout_ms r.world in
      let a = asked (record r { world = w }) in ground (arith, a)

  abbrev pub Ends : (ℕ → Runtime E → Runtime E) → ℕ → WorkBudget → Runtime E → Type 0
  Ends others fuel budget r = (r' : Runtime E) × (rounds E others fuel budget r ≡ some r')

  module _ (others : ℕ → Runtime E → Runtime E) (fuel : ℕ) (budget : WorkBudget)
      (r : Runtime E) where
    abbrev pub polled : Runtime E × Bool
    polled = poll E (others fuel) r

    abbrev pub acted_on : Runtime E × WorkBudget × Bool
    acted_on = after_poll E (others fuel) polled.1 budget polled.0

    pub rounds_stopped :
        polled.0.stop_requested ≡ true → rounds E others (suc fuel) budget r ≡ some polled.0
    unfolding rounds
    rounds_stopped e = simp e

    pub rounds_over :
        polled.0.stop_requested ≡ false
        → acted_on.2 ≡ false
        → rounds E others (suc fuel) budget r ≡ some acted_on.0
    unfolding rounds
    rounds_over e e' = simp (e, e')

    pub rounds_continue :
        polled.0.stop_requested ≡ false
        → acted_on.2 ≡ true
        → rounds E others (suc fuel) budget r ≡ rounds E others fuel acted_on.1 acted_on.0
    unfolding rounds
    rounds_continue e e' = simp (e, e')

  rounds_end :
      (others : ℕ → Runtime E → Runtime E) (fuel : ℕ) (budget : WorkBudget) (r : Runtime E)
      → ((r' : Runtime E) → (others 0 r').stop_requested ≡ true)
      → Ends others (suc fuel) budget r
  rounds_end others zero budget r asked =
      (_, rounds_stopped others 0 budget r (poll_stops (others 0) r asked))
  rounds_end others (suc fuel) budget r asked =
      elim (Bool-cases (poll E (others (suc fuel)) r).0.stop_requested) [
        | inl e ↦ (_, rounds_stopped others (suc fuel) budget r e)
        | inr e ↦ elim (Bool-cases (acted_on others (suc fuel) budget r).2) [
          | inr e' ↦ (_, rounds_over others (suc fuel) budget r e e')
          | inl e' ↦
              let (r1, b1, _) = acted_on others (suc fuel) budget r in
              let (r', same) = rounds_end others fuel b1 r1 asked in
              (r', rounds_continue others (suc fuel) budget r e e' ∙ same)
        ]
      ]

  -- The worker's start: its budget begins at the time that it reads.
  abbrev pub awake : Runtime E → Runtime E
  awake r = record r { world = (E.system_now r.world).0 }

  pub run_loop_skips :
      (others : ℕ → Runtime E → Runtime E) (fuel : ℕ) (r : Runtime E)
      → r.stop_requested ≡ true
      → run_loop E others fuel r ≡ some (awake r)
  unfolding run_loop
  run_loop_skips others fuel r e = simp e

  pub run_loop_enters :
      (others : ℕ → Runtime E → Runtime E) (fuel : ℕ) (r : Runtime E)
      → r.stop_requested ≡ false
      → run_loop E others fuel r
        ≡ rounds E others fuel (new_budget (E.system_now r.world).1) (awake r)
  unfolding run_loop
  run_loop_enters others fuel r e = simp e

  pub run_loop_ends :
      (others : ℕ → Runtime E → Runtime E) (fuel : ℕ) (r : Runtime E)
      → ((r' : Runtime E) → (others 0 r').stop_requested ≡ true)
      → (r' : Runtime E) × (run_loop E others (suc fuel) r ≡ some r')
  run_loop_ends others fuel r asked = elim (Bool-cases r.stop_requested) [
    | inl e ↦ (awake r, run_loop_skips others (suc fuel) r e)
    | inr e ↦
        let budget = new_budget (E.system_now r.world).1 in
        let (r', same) = rounds_end others fuel budget (awake r) asked in
        (r', run_loop_enters others (suc fuel) r e ∙ same)
  ]

  -- The worker ends: if in the last round looked at, at the latest, another task requests a stop,
  -- it leaves both loops, whatever the source and its budget do, and then is not active.
  pub task_entry_ends :
      (others : ℕ → Runtime E → Runtime E) (fuel : ℕ) (r : Runtime E)
      → ((r' : Runtime E) → (others 0 r').stop_requested ≡ true)
      → (r' : Runtime E) × (task_entry E others (suc fuel) r ≡ some r') × (r'.worker_active ≡ false)
  task_entry_ends others fuel r asked =
      let (r', e) = run_loop_ends others fuel r asked in
      (record r' { worker_active = false }, unfold task_entry in rw e refl, refl)
