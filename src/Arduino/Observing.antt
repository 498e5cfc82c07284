-- ===== src/Arduino/Observing.antt =====
-- examples/arduino/ReceiveOnlyRuntime: the count of its observer against the runtime's diagnostics.
use esp32_vehicle_can_core.Prelude.{
  ℕ, suc, ◌+◌, ◌≡◌, inl, inr, refl, Bool, true, false, some, arith, if_elim, u64, not, ◌&&◌, ◌||◌,
  ap,
}
use esp32_vehicle_can_core.VehicleCore.Frame.{RawCanFrame}
use esp32_vehicle_can_core.CanBus.Platform.{Platform}
use esp32_vehicle_can_core.Telemetry.Types.{
  ReceiveStatus, ProcessStatus, LifecycleState, ResultCode,
}
use esp32_vehicle_can_core.Telemetry.Runtime.{
  Surroundings, Runtime, is_running, refresh_due, count_result, refresh_if_due, frame_received,
  timed_out_received, fault_received, refresh_checkpoint, update_silence, reset_cache,
}
use esp32_vehicle_can_core.Telemetry.Runtime.Control.{
  lifecycle_result, publish_run, run_source, start_source, start,
}
use esp32_vehicle_can_core.Telemetry.Runtime.Loop.{handle_frame, handle, poll, run_loop}
use esp32_vehicle_can_core.Telemetry.Runtime.Looping.{IsLoopInvariant, run_loop_keep}
use esp32_vehicle_can_core.Telemetry.Runtime.Reporting.{run_loop_ends}
use esp32_vehicle_can_core.Arduino.Obeying.{to_start, start_runtime_starts}
use esp32_vehicle_can_core.Arduino.ReceiveOnly.{
  Clocks, receive, process, on_frame_processed, reset_observer, observed, surroundings,
}
use esp32_vehicle_can_core.Arduino.Control.{start_runtime}

module _ (P : Platform) (C : Clocks P) where
  abbrev E : Surroundings
  E = surroundings P C

  -- The observer has counted what the runtime has.
  abbrev pub Seen : Runtime (surroundings P C) → Type 0
  Seen r = r.world.count ≡ r.diagnostics.frames_processed

  -- What the tasks beside the worker leave alone.
  abbrev pub LeavesSeen : (Runtime (surroundings P C) → Runtime (surroundings P C)) → Type 0
  LeavesSeen others =
      (r : Runtime (surroundings P C))
      → ((others r).diagnostics.frames_processed ≡ r.diagnostics.frames_processed)
        × ((others r).world.count ≡ r.world.count)

  refresh-Seen :
      (now : ℕ) (force : Bool) (r : Runtime E) → Seen r → Seen (refresh_if_due E now force r)
  unfolding refresh_if_due
  refresh-Seen now force r h = if_elim Seen (not force && not (refresh_due E now r)) h h

  update_silence-Seen : (now : ℕ) (r : Runtime E) → Seen r → Seen (update_silence E now r)
  unfolding update_silence
  update_silence-Seen now r h =
      if_elim Seen (not (is_running r.lifecycle) || not r.diagnostics.has_last_frame) h
        (if_elim Seen _ h h)

  timed_out-Seen : (r : Runtime E) → Seen r → Seen (timed_out_received E r)
  unfolding timed_out_received
  timed_out-Seen r h =
      let (w, now) = E.clock_now r.world in
      let h1 = refresh-Seen now false (record r { world = w }) h in
      if_elim Seen _ (update_silence-Seen now _ h1) h1

  fault-Seen : (t : ℕ) (r : Runtime E) → Seen r → Seen (fault_received E t r)
  unfolding fault_received
  fault-Seen t r h = refresh-Seen t true r h

  -- Between the runtime's count of a frame and the observer's.
  frame_received-ahead :
      (t : ℕ) (r : Runtime E)
      → Seen r
      → let r' = frame_received E t ProcessStatus.processed r in
        r'.diagnostics.frames_processed ≡ u64 (r'.world.count + 1)
  unfolding frame_received count_result
  frame_received-ahead t r h =
      let kept : Seen (refresh_if_due E t false r) = refresh-Seen t false r h in
      ground (arith, kept)

  handle_frame-Seen :
      (frame : RawCanFrame) (t : ℕ) (r : Runtime E) → Seen r → Seen (handle_frame E frame t r)
  unfolding handle_frame process on_frame_processed
  handle_frame-Seen frame t r h = ground (arith, frame_received-ahead t r h)

  handle-Seen :
      (status : ReceiveStatus) (frame : RawCanFrame) (t : ℕ) (r : Runtime E)
      → Seen r
      → Seen (handle E status frame t r)
  unfolding handle
  handle-Seen ReceiveStatus.frame frame t r h = handle_frame-Seen frame t r h
  handle-Seen ReceiveStatus.timeout frame t r h = timed_out-Seen r h
  handle-Seen ReceiveStatus.fault frame t r h = fault-Seen t r h
  handle-Seen ReceiveStatus.not_started frame t r h = fault-Seen t r h

  beside-Seen :
      (others : Runtime E → Runtime E) (r : Runtime E)
      → LeavesSeen others
      → Seen r
      → Seen (others r)
  beside-Seen others r leaves h = ground (arith, leaves r)

  poll-Seen :
      (others : Runtime E → Runtime E) (r : Runtime E)
      → LeavesSeen others
      → Seen r
      → Seen (poll E others r).0
  unfolding poll receive
  poll-Seen others r leaves h =
      let (w, status, frame) = E.source_receive r.config.receive_timeout_ms r.world in
      let r1 : Runtime E = others (record r { world = w }) in
      let (w1, t) = E.clock_now r1.world in
      let r2 : Runtime E = record r1 { world = w1 } in
      let h2 : Seen r2 = beside-Seen others (record r { world = w }) leaves h in
      if_elim Seen r2.stop_requested h2 (handle-Seen status frame t r2 h2)

  loop_invariant :
      (others : ℕ → Runtime E → Runtime E)
      → ((n : ℕ) → LeavesSeen (others n))
      → IsLoopInvariant E others Seen Seen
  unfolding refresh_checkpoint
  loop_invariant others leaves = record {
    timed = λ r h. h;
    refreshed = λ r h. update_silence-Seen _ _ h;
    counted = λ r n h. h;
    beside = λ fuel r h. beside-Seen (others fuel) r (leaves fuel) h;
    polled =
        λ fuel r h. let kept = poll-Seen (others fuel) r (leaves fuel) h in (λ s. kept, λ s. kept);
  }

  publish_run-Seen : (r : Runtime E) → r.world.count ≡ 0 → Seen (publish_run E r)
  unfolding publish_run refresh_if_due
  publish_run-Seen r fresh = ground arith

  started-Seen :
      (r : Runtime E) → r.world.count ≡ 0 → (start E r).1 ≡ ResultCode.ok → Seen (start E r).0
  unfolding start start_source run_source reset_cache lifecycle_result
  started-Seen r fresh ok =
      let r1 : Runtime E = reset_cache E (record r { lifecycle_operation_active = true }) in
      let s = r1.source in
      let r2 : Runtime E = record r1 {
        world = (E.source_start r.world).0;
        source = record s { source_stop_retry_supported = true };
      } in
      let published = publish_run-Seen r2 fresh in ground (arith, published)

  abbrev pub prepared : Runtime (surroundings P C) → Runtime (surroundings P C)
  prepared r = to_start (surroundings P C) (reset_observer P C) r

  -- When `start_runtime` of the ReceiveOnlyRuntime sketch finds the runtime stopped and no operation
  -- under way and its start succeeds, and another task, which leaves both counts alone, requests a
  -- stop in the last round looked at, the worker ends, and the observer then says that it has seen as
  -- many frames as the diagnostics say are processed, over any answers of the CAN bus.
  pub observed_count :
      (worker : Runtime (surroundings P C) → Runtime (surroundings P C))
      (others : ℕ → Runtime (surroundings P C) → Runtime (surroundings P C)) (fuel : ℕ)
      (r : Runtime (surroundings P C))
      → r.lifecycle ≡ LifecycleState.stopped
      → r.lifecycle_operation_active ≡ false
      → (start (surroundings P C) (prepared r)).1 ≡ ResultCode.ok
      → ((n : ℕ) → LeavesSeen (others n))
      → ((r' : Runtime (surroundings P C)) → (others 0 r').stop_requested ≡ true)
      → (r' : Runtime (surroundings P C)) × (run_loop
            (surroundings P C)
            others
            (suc fuel)
            (start_runtime (surroundings P C) (reset_observer P C) worker r)
          ≡ some r')
        × ((observed P C r'.world).value ≡ some r'.diagnostics.frames_processed)
  unfolding observed
  observed_count worker others fuel r st idle ok leaves asked =
      let r1 : Runtime E = start_runtime E (reset_observer P C) worker r in
      let begins : Seen r1 =
        rw (start_runtime_starts E (reset_observer P C) worker r st idle ok)
          (started-Seen (prepared r) (unfold reset_observer in refl) ok) in
      let (r', e) = run_loop_ends E others fuel r1 asked in
      let seen : Seen r' =
        (elim (run_loop_keep E others Seen Seen (loop_invariant others leaves) (suc fuel) r1 begins
          e) [ inl h ↦ h | inr h ↦ h ]) in
      (r', e, ap some seen)
