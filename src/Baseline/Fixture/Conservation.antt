-- ===== src/Baseline/Fixture/Conservation.antt =====
-- The telemetry runtime over tools/runtime_baseline/fixture.hpp: no frame that the source generates
-- is lost from the counters, from its generation to the end of the worker.
use esp32_vehicle_can_core.Prelude.{
  ℕ, ◌+◌, ◌≡◌, ◌⊎◌, inl, inr, refl, Bool, true, false, arith, if_elim, if◌then◌else◌, u64, not,
  ◌&&◌, ◌||◌,
}
use esp32_vehicle_can_core.VehicleCore.Frame.{RawCanFrame}
use esp32_vehicle_can_core.Telemetry.Types.{ReceiveStatus, ProcessStatus, TransportDiagnostics}
use esp32_vehicle_can_core.Telemetry.Runtime.{
  Surroundings, Runtime, is_running, refresh_due, is_fault, count_result, refresh_if_due,
  frame_received, timed_out_received, fault_received, refresh_checkpoint, update_silence,
}
use esp32_vehicle_can_core.Telemetry.Runtime.Loop.{is_frame, handle_frame, handle, poll}
use esp32_vehicle_can_core.Telemetry.Runtime.Looping.{IsLoopInvariant}
use esp32_vehicle_can_core.Baseline.Queue.{Queue}
use esp32_vehicle_can_core.Baseline.Queue.Invariant.{IsValid}
use esp32_vehicle_can_core.Baseline.Metrics.{Metrics}
use esp32_vehicle_can_core.Baseline.Fixture.{Platform}
use esp32_vehicle_can_core.Baseline.Fixture.Source.{receive}
use esp32_vehicle_can_core.Baseline.Fixture.Processing.{process, on_frame_processed, on_diagnostics}
use esp32_vehicle_can_core.Baseline.Fixture.Receiving.{Same, receive-Receives}
use esp32_vehicle_can_core.Baseline.Fixture.Composition.{
  Host, surroundings, Counts, Agrees, count_result-Agrees, Counts-add, process-Counts,
  on_frame_processed-Same, on_diagnostics-Same,
}

-- The counters agree, the queue is well formed, and of the frames taken from it all but `open` are
-- counted.
abbrev pub Tallies : ℕ → TransportDiagnostics → Metrics → Queue → Type 0
Tallies open_frames d m q =
    Agrees d m
    × IsValid q
    × (q.consumed ≡ u64 (m.processed + m.ignored + m.malformed + open_frames))

-- A frame that is handled is counted on both sides.
counted :
    (status : ProcessStatus) (d : TransportDiagnostics) (m m' : Metrics) (q : Queue)
    → Counts status m m'
    → Tallies 1 d m q
    → Tallies 0 (count_result status d) m' q
counted status d m m' q c (a, v, e) =
    (count_result-Agrees status d m m' c a, v, omega (arith, Counts-add status m m' c))

Same-Tallies :
    (n : ℕ) (d : TransportDiagnostics) (m m' : Metrics) (q : Queue)
    → Same m m'
    → Tallies n d m q
    → Tallies n d m' q
Same-Tallies n d m m' q same h = ground arith

module _ (P : Platform) (H : Host P) where
  abbrev pub E : Surroundings
  E = surroundings P H

  abbrev pub Tally : ℕ → Runtime (surroundings P H) → Type 0
  Tally open_frames r = Tallies open_frames r.diagnostics r.world.metrics r.world.source.queue

  -- What the tasks beside the worker leave alone; a stop only cancels the source.
  abbrev pub LeavesCounts : (Runtime (surroundings P H) → Runtime (surroundings P H)) → Type 0
  LeavesCounts others =
      (r : Runtime (surroundings P H))
      → ((others r).diagnostics.frames_processed ≡ r.diagnostics.frames_processed)
        × ((others r).diagnostics.frames_ignored ≡ r.diagnostics.frames_ignored)
        × ((others r).diagnostics.frames_malformed ≡ r.diagnostics.frames_malformed)
        × ((others r).world.metrics ≡ r.world.metrics)
        × ((others r).world.source.queue ≡ r.world.source.queue)

  refresh-Tally :
      (n now : ℕ) (force : Bool) (r : Runtime E)
      → Tally n r
      → Tally n (refresh_if_due E now force r)
  unfolding refresh_if_due
  refresh-Tally n now force r h = if_elim (Tally n) (not force && not (refresh_due E now r)) h h

  update_silence-Tally : (n now : ℕ) (r : Runtime E) → Tally n r → Tally n (update_silence E now r)
  unfolding update_silence
  update_silence-Tally n now r h =
      if_elim (Tally n) (not (is_running r.lifecycle) || not r.diagnostics.has_last_frame) h
        (if_elim (Tally n) _ h h)

  timed_out-Tally : (n : ℕ) (r : Runtime E) → Tally n r → Tally n (timed_out_received E r)
  unfolding timed_out_received
  timed_out-Tally n r h =
      let (w, now) = E.clock_now r.world in
      let h1 = refresh-Tally n now false (record r { world = w }) h in
      if_elim (Tally n) _ (update_silence-Tally n now _ h1) h1

  fault-Tally : (n t : ℕ) (r : Runtime E) → Tally n r → Tally n (fault_received E t r)
  unfolding fault_received
  fault-Tally n t r h = refresh-Tally n t true r h

  -- A frame that the processor has counted and the runtime has not.
  abbrev Counting : ProcessStatus → Metrics → Runtime E → Type 0
  Counting status m r =
      Counts status m r.world.metrics × Tallies 1 r.diagnostics m r.world.source.queue

  refresh-Counting :
      (status : ProcessStatus) (m : Metrics) (now : ℕ) (force : Bool) (r : Runtime E)
      → Counting status m r
      → Counting status m (refresh_if_due E now force r)
  unfolding refresh_if_due
  refresh-Counting status m now force r h =
      if_elim (Counting status m) (not force && not (refresh_due E now r)) h h

  frame_received-Tally :
      (t : ℕ) (status : ProcessStatus) (r : Runtime E) (m : Metrics)
      → Counting status m r
      → Tally 0 (frame_received E t status r)
  unfolding frame_received
  frame_received-Tally t status r m h =
      let r1 : Runtime E = refresh_if_due E t (is_fault status) r in
      let (c, h1) = refresh-Counting status m t (is_fault status) r h in
      counted status _ m r1.world.metrics r1.world.source.queue c h1

  on_frame_processed-Tally :
      (frame : RawCanFrame) (status : ProcessStatus) (r : Runtime E)
      → Tally 0 r
      → Tally 0 (record r { world = on_frame_processed P frame status r.world })
  on_frame_processed-Tally frame status r h =
      ground (arith, on_frame_processed-Same P frame status r.world)

  report-Tally :
      (n : ℕ) (r : Runtime E)
      → Tally n r
      → Tally n (record r { world = on_diagnostics P r.diagnostics r.world })
  report-Tally n r h = ground (arith, on_diagnostics-Same P r.diagnostics r.world)

  handle_frame-Tally :
      (frame : RawCanFrame) (t : ℕ) (r : Runtime E) → Tally 1 r → Tally 0 (handle_frame E frame t r)
  unfolding handle_frame
  handle_frame-Tally frame t r h =
      let (w, result) = process P frame r.world in
      let (c, src) = process-Counts P frame r.world in
      let counting : Counting result r.world.metrics (record r { world = w }) =
        ground (arith, c, src) in
      let r1 : Runtime E = frame_received E t result (record r { world = w }) in
      let r2 : Runtime E = record r1 { world = on_frame_processed P frame result r1.world } in
      let h1 = frame_received-Tally t result (record r { world = w }) r.world.metrics counting in
      let h2 = report-Tally 0 r2 (on_frame_processed-Tally frame result r1 h1) in
      if_elim (Tally 0) (is_fault result) h2 h2

  handle-Tally :
      (status : ReceiveStatus) (frame : RawCanFrame) (t : ℕ) (r : Runtime E)
      → Tally (if is_frame status then 1 else 0) r
      → Tally 0 (handle E status frame t r)
  unfolding handle
  handle-Tally ReceiveStatus.frame frame t r h = handle_frame-Tally frame t r h
  handle-Tally ReceiveStatus.timeout frame t r h =
      report-Tally 0 (timed_out_received E r) (timed_out-Tally 0 r h)
  handle-Tally ReceiveStatus.fault frame t r h =
      report-Tally 0 (fault_received E t r) (fault-Tally 0 t r h)
  handle-Tally ReceiveStatus.not_started frame t r h =
      report-Tally 0 (fault_received E t r) (fault-Tally 0 t r h)

  received-Tally :
      (r : Runtime E)
      → Tally 0 r
      → let (w, status, frame) = receive P r.config.receive_timeout_ms r.world in
        Tally (if is_frame status then 1 else 0) (record r { world = w })
  received-Tally r h = ground (arith, receive-Receives P r.config.receive_timeout_ms r.world)

  beside-Tally :
      (n : ℕ) (others : Runtime E → Runtime E) (r : Runtime E)
      → LeavesCounts others
      → Tally n r
      → Tally n (others r)
  beside-Tally n others r leaves h = ground (arith, leaves r)

  abbrev AfterPoll : Runtime E → Type 0
  AfterPoll r =
      (r.stop_requested ≡ true → Tally 0 r ⊎ Tally 1 r) × (r.stop_requested ≡ false → Tally 0 r)

  unless_stopped-AfterPoll :
      (b frame : Bool) (asked handled : Runtime E)
      → asked.stop_requested ≡ b
      → Tally (if frame then 1 else 0) asked
      → Tally 0 handled
      → AfterPoll (if b then asked else handled)
  unless_stopped-AfterPoll true true asked handled e h k = (λ s. inr h, λ s. absurd cc)
  unless_stopped-AfterPoll true false asked handled e h k = (λ s. inl h, λ s. absurd cc)
  unless_stopped-AfterPoll false frame asked handled e h k = (λ s. inl k, λ s. k)

  poll-Tally :
      (others : Runtime E → Runtime E) (r : Runtime E)
      → LeavesCounts others
      → Tally 0 r
      → AfterPoll (poll E others r).0
  unfolding poll
  poll-Tally others r leaves h =
      let (w, status, frame) = receive P r.config.receive_timeout_ms r.world in
      let n : ℕ = if is_frame status then 1 else 0 in
      let r1 : Runtime E = others (record r { world = w }) in
      let (w1, t) = E.clock_now r1.world in
      let r2 : Runtime E = record r1 { world = w1 } in
      let h2 : Tally n r2 =
        beside-Tally n others (record r { world = w }) leaves (received-Tally r h) in
      unless_stopped-AfterPoll r2.stop_requested (is_frame status) r2 (handle E status frame t r2)
        refl h2 (handle-Tally status frame t r2 h2)

  pub loop_invariant :
      (others : ℕ → Runtime E → Runtime E)
      → ((n : ℕ) → LeavesCounts (others n))
      → IsLoopInvariant E others (Tally 0) (λ r. Tally 0 r ⊎ Tally 1 r)
  unfolding refresh_checkpoint
  loop_invariant others leaves = record {
    timed = λ r h. h;
    refreshed = λ r h. update_silence-Tally 0 _ _ h;
    counted = λ r n h. h;
    beside = λ fuel r h. beside-Tally 0 (others fuel) r (leaves fuel) h;
    polled = λ fuel r h. poll-Tally (others fuel) r (leaves fuel) h;
  }
