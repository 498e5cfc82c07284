-- ===== src/Telemetry/Runtime/Worker.antt =====
-- The worker of components/vehicle_telemetry/src/runtime.cpp beside a stop that waits for it.
use esp32_vehicle_can_core.Prelude.{ℕ, ◌≡◌, ◌⊎◌, true, false, arith, if◌then◌else◌}
use esp32_vehicle_can_core.VehicleCore.Frame.{RawCanFrame}
use esp32_vehicle_can_core.Telemetry.Types.{LifecycleState, ReceiveStatus, ProcessStatus}
use esp32_vehicle_can_core.Telemetry.Runtime.{
  Surroundings, Runtime, is_fault, refresh_if_due, frame_received, timed_out_received,
  fault_received, update_silence,
}
use esp32_vehicle_can_core.Telemetry.Runtime.Ownership.{Kept, refresh_if_due-Kept}
use esp32_vehicle_can_core.Telemetry.Runtime.Loop.{handle_frame, handle, poll}
use esp32_vehicle_can_core.Telemetry.Runtime.Stopping.{IsWorkerLike}

module _ (E : Surroundings) where
  -- A worker whose receive and callbacks return within a delay: a round of it on its own, or its end
  -- once a stop is requested.
  abbrev pub worker_step : Runtime E → Runtime E
  worker_step r =
      if r.stop_requested then record r { worker_active = false } else (poll E (λ r'. r') r).0

  abbrev Behaves : Runtime E → Runtime E → Type 0
  Behaves r r' =
      (r'.source ≡ r.source)
      × (r'.lifecycle_operation_active ≡ r.lifecycle_operation_active)
      × ((r'.lifecycle ≡ r.lifecycle) ⊎ (r'.lifecycle ≡ LifecycleState.faulted))
      × (r'.worker_active ≡ r.worker_active)

  update_silence-Kept : (now : ℕ) (r : Runtime E) → Kept E r (update_silence E now r)
  unfolding update_silence
  update_silence-Kept now r = ground arith

  frame_received-Kept :
      (t : ℕ) (result : ProcessStatus) (r : Runtime E) → Kept E r (frame_received E t result r)
  unfolding frame_received
  frame_received-Kept t result r = refresh_if_due-Kept E t (is_fault result) r

  fault_received-Kept : (t : ℕ) (r : Runtime E) → Kept E r (fault_received E t r)
  unfolding fault_received
  fault_received-Kept t r = refresh_if_due-Kept E t true r

  timed_out_received-Kept : (r : Runtime E) → Kept E r (timed_out_received E r)
  unfolding timed_out_received update_silence refresh_if_due
  timed_out_received-Kept r = ground arith

  handle-Behaves :
      (status : ReceiveStatus) (f : RawCanFrame) (t : ℕ) (r : Runtime E)
      → Behaves r (handle E status f t r)
  unfolding handle handle_frame
  handle-Behaves ReceiveStatus.frame f t r =
      let (w, result) = E.process f r.world in
      let a = frame_received-Kept t result (record r { world = w }) in ground (arith, a)
  handle-Behaves ReceiveStatus.timeout f t r =
      let a = timed_out_received-Kept r in ground (arith, a)
  handle-Behaves ReceiveStatus.fault f t r = let a = fault_received-Kept t r in ground (arith, a)
  handle-Behaves ReceiveStatus.not_started f t r =
      let a = fault_received-Kept t r in ground (arith, a)

  poll-Behaves : (r : Runtime E) → Behaves r (poll E (λ r'. r') r).0
  unfolding poll
  poll-Behaves r =
      let (w, status, f) = E.source_receive r.config.receive_timeout_ms r.world in
      let (w1, t) = E.clock_now w in
      let a = handle-Behaves status f t (record r { world = w1 }) in ground (arith, a)

  pub worker_step-Behaves :
      (r : Runtime E)
      → ((worker_step r).source ≡ r.source)
        × ((worker_step r).lifecycle_operation_active ≡ r.lifecycle_operation_active)
        × (((worker_step r).lifecycle ≡ r.lifecycle)
            ⊎ ((worker_step r).lifecycle ≡ LifecycleState.faulted))
        × (r.worker_active ≡ false → (worker_step r).worker_active ≡ false)
  worker_step-Behaves r = ground (arith, poll-Behaves r)

  -- The worker of this file, beside a stop that waits for it, does only what the stop relies on: it
  -- leaves the source's ownership and the operation alone, it may latch a fault, and it does not
  -- become active again.
  pub worker_step-IsWorkerLike : IsWorkerLike E worker_step
  worker_step-IsWorkerLike = record {
    source = λ r. (worker_step-Behaves r).0;
    operation = λ r. (worker_step-Behaves r).1;
    fault = λ r. (worker_step-Behaves r).2;
    inactive = λ r. (worker_step-Behaves r).3;
  }
