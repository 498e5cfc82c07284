-- ===== src/CanBus/Acquisition/Task.antt =====
-- What the receive task of components/can_bus/src/can_bus.cpp does to the globals in a round.
use esp32_vehicle_can_core.Prelude.{
  ℕ, zero, suc, ◌≡◌, refl, ◌⊎◌, inl, inr, ap, ◌∙◌, Bool, true, false, arith, Bool-cases,
  if◌then◌else◌,
}
use esp32_vehicle_can_core.VehicleCore.Frame.{RawCanFrame, is_valid}
use esp32_vehicle_can_core.CanBus.Types.{stopped, faulted, queue_capacity}
use esp32_vehicle_can_core.CanBus.Ring.{push, record_driver_rx_missed, record_bus_off}
use esp32_vehicle_can_core.CanBus.Ring.Invariant.{
  Inv, push-Inv, record_bus_error-Inv, record_driver_rx_missed-Inv, record_bus_off-Inv,
}
use esp32_vehicle_can_core.CanBus.Lifecycle.{LifecycleController, latch_fault}
use esp32_vehicle_can_core.CanBus.Platform.{
  Platform, EspErr, esp_ok, esp_timeout, esp_failure, Message, StatusInfo,
}
use esp32_vehicle_can_core.CanBus.Acquisition.{
  Bus, latch_terminal_fault, alerts_read, collect_alerts, status_read, collect_driver_status,
  to_frame, offer_frame, message_read, receive_message, receive_round, finish_task,
}
use esp32_vehicle_can_core.CanBus.Acquisition.Stopping.{IsTaskLike}

module _ (P : Platform) where
  -- What a part of a round leaves of the globals, and what it means that the loop ends.
  abbrev pub Part : Bus P → Bus P × Bool → Type 0
  Part b (b', goes_on) =
      (b'.lifecycle.driver_installed ≡ b.lifecycle.driver_installed)
      × (b'.lifecycle.driver_started ≡ b.lifecycle.driver_started)
      × (b'.lifecycle.task_owned ≡ b.lifecycle.task_owned)
      × (Inv queue_capacity b.frames → Inv queue_capacity b'.frames)
      × (goes_on ≡ true
          → (b'.receive_requested ≡ b.receive_requested) × (b'.lifecycle ≡ b.lifecycle))
      × (goes_on ≡ false
          → (b'.receive_requested ≡ false)
            × ((b'.lifecycle.state ≡ faulted) ⊎ (b'.lifecycle.state ≡ stopped)))

  latch_terminal_fault-Part : (b : Bus P) → Part b (latch_terminal_fault P b, false)
  unfolding latch_terminal_fault latch_fault
  latch_terminal_fault-Part b = ground arith

  pub offer_frame_keeps :
      (b : Bus P) (f : RawCanFrame)
      → ((offer_frame P b f).lifecycle ≡ b.lifecycle)
        × ((offer_frame P b f).receive_requested ≡ b.receive_requested)
        × (is_valid f ≡ true → (offer_frame P b f).frames ≡ (push queue_capacity b.frames f).0)
        × (is_valid f ≡ false → (offer_frame P b f).frames ≡ record_driver_rx_missed b.frames 1)
  unfolding offer_frame
  offer_frame_keeps b f = elim (Bool-cases (is_valid f)) [
    | inl e ↦ rw (e, offer_frame) (refl, refl, λ t. refl, λ u. cc)
    | inr e ↦ rw (e, offer_frame) (refl, refl, λ t. cc, λ u. refl)
  ]

  offer_frame-Inv :
      (b : Bus P) (f : RawCanFrame)
      → Inv queue_capacity b.frames
      → Inv queue_capacity (offer_frame P b f).frames
  offer_frame-Inv b f v = elim (Bool-cases (is_valid f)) [
    | inl e ↦ rw ((offer_frame_keeps b f).2 e) (push-Inv queue_capacity b.frames f (omega arith) v)
    | inr e ↦ rw ((offer_frame_keeps b f).3 e) (record_driver_rx_missed-Inv b.frames 1 v)
  ]

  message_read-Part : (b : Bus P) (r : EspErr) (m : Message) → Part b (message_read P b r m)
  unfolding message_read
  message_read-Part b esp_ok m =
      let stamped = record b { world = (P.timer_us b.world).0 } in
      let f = to_frame P b m (P.timer_us b.world).1 in
      let keeps = offer_frame_keeps stamped f in
      (
        ap (λ (c : LifecycleController). c.driver_installed) keeps.0,
        ap (λ (c : LifecycleController). c.driver_started) keeps.0,
        ap (λ (c : LifecycleController). c.task_owned) keeps.0,
        offer_frame-Inv stamped f,
        λ _. (keeps.1, keeps.0),
        λ e. cc,
      )
  message_read-Part b esp_timeout m = ground arith
  message_read-Part b esp_failure m = latch_terminal_fault-Part b

  receive_message-Part : (b : Bus P) → Part b (receive_message P b)
  unfolding receive_message
  receive_message-Part b =
      let (w, r, m) = P.driver_receive b.world in message_read-Part (record b { world = w }) r m

  status_read-Part : (b : Bus P) (r : EspErr) (s : StatusInfo) → Part b (status_read P b r s)
  unfolding status_read
  status_read-Part b esp_ok s = (
    refl,
    refl,
    refl,
    λ v. record_driver_rx_missed-Inv _ _ (record_bus_error-Inv b.frames _ v),
    λ _. (refl, refl),
    λ e. cc,
  )
  status_read-Part b esp_timeout s = latch_terminal_fault-Part b
  status_read-Part b esp_failure s = latch_terminal_fault-Part b

  collect_driver_status-Part : (b : Bus P) → Part b (collect_driver_status P b)
  unfolding collect_driver_status
  collect_driver_status-Part b =
      let (w, r, s) = P.get_status_info b.world in status_read-Part (record b { world = w }) r s

  alerts_read-Part : (b : Bus P) (r : EspErr) (off : Bool) → Part b (alerts_read P b r off)
  unfolding alerts_read
  alerts_read-Part b esp_timeout off = ground arith
  alerts_read-Part b esp_failure off = latch_terminal_fault-Part b
  alerts_read-Part b esp_ok false = ground arith
  alerts_read-Part b esp_ok true =
      let (i, s, t, ring, on, off) =
        latch_terminal_fault-Part (record b { frames = record_bus_off b.frames 1 }) in
      (i, s, t, λ v. ring (record_bus_off-Inv b.frames 1 v), on, off)

  collect_alerts-Part : (b : Bus P) → Part b (collect_alerts P b)
  unfolding collect_alerts
  collect_alerts-Part b =
      let (w, r, off) = P.read_alerts b.world in alerts_read-Part (record b { world = w }) r off

  -- A round of the receive task keeps the ring well formed and who owns the driver and the task; it
  -- goes on only with the controller and the request for rounds as they were, and it breaks the
  -- loop only with rounds no longer requested and the controller faulted, or stopped already.
  pub receive_round-Part : (b : Bus P) → Part b (receive_round P b)
  unfolding receive_round
  receive_round-Part b =
      let (b1, received) = receive_message P b in
      let (b2, counted) = collect_driver_status P b1 in
      ground (arith, receive_message-Part b, collect_driver_status-Part b1, collect_alerts-Part b2)

  -- The task as it runs beside another call: a round while rounds are requested, then its end.
  abbrev pub task_step : Bus P → Bus P
  task_step b =
      if b.receive_requested
      then (receive_round P b).0
      else if b.lifecycle.task_owned
      then finish_task P b
      else b

  abbrev pub task_steps : ℕ → Bus P → Bus P
  task_steps zero b = b
  task_steps (suc n) b = task_steps n (task_step b)

  task_step_keeps :
      (b : Bus P)
      → ((task_step b).lifecycle.driver_installed ≡ b.lifecycle.driver_installed)
        × ((task_step b).lifecycle.driver_started ≡ b.lifecycle.driver_started)
        × (b.lifecycle.task_owned ≡ false → (task_step b).lifecycle.task_owned ≡ false)
        × (b.receive_requested ≡ false → (task_step b).receive_requested ≡ false)
        × (Inv queue_capacity b.frames → Inv queue_capacity (task_step b).frames)
  unfolding finish_task
  task_step_keeps b = ground (arith, receive_round-Part b)

  -- The task of this file, run for any number of steps beside a call that waits for it, does nothing
  -- but what a stop relies on: it neither installs nor starts a driver, it only gives up its own
  -- ownership, it requests no more rounds, and it keeps the ring well formed.
  pub task_steps-IsTaskLike : (n : ℕ) → IsTaskLike P (task_steps n)
  task_steps-IsTaskLike zero = record {
    driver_kept = λ b. (refl, refl);
    none_created = λ b h. h;
    none_requested = λ b h. h;
    ring_kept = λ b v. v;
  }
  task_steps-IsTaskLike (suc n) =
      let rest = task_steps-IsTaskLike n in
      record {
        driver_kept = λ b.
            let (i, s, _, _, _) = task_step_keeps b in
            let (i', s') = rest.driver_kept (task_step b) in (i' ∙ i, s' ∙ s);
        none_created = λ b h. rest.none_created (task_step b) ((task_step_keeps b).2 h);
        none_requested = λ b h. rest.none_requested (task_step b) ((task_step_keeps b).3 h);
        ring_kept = λ b v. rest.ring_kept (task_step b) ((task_step_keeps b).4 v);
      }
