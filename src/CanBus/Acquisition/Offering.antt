-- ===== src/CanBus/Acquisition/Offering.antt =====
-- What becomes of a message that the receive task of components/can_bus/src/can_bus.cpp reads.
use esp32_vehicle_can_core.Prelude.{◌+◌, ◌≡◌, refl, ap, Bool, true, false, List, u64}
use esp32_vehicle_can_core.VehicleCore.Frame.{RawCanFrame, is_valid}
use esp32_vehicle_can_core.CanBus.Types.{queue_capacity}
use esp32_vehicle_can_core.CanBus.Fifo
use esp32_vehicle_can_core.CanBus.Ring.{record_driver_rx_missed}
use esp32_vehicle_can_core.CanBus.Ring.Invariant.{Inv}
use esp32_vehicle_can_core.CanBus.Ring.Window.{IsFit, contents}
use esp32_vehicle_can_core.CanBus.Ring.Refine.{push_refines}
use esp32_vehicle_can_core.CanBus.Platform.{Platform, esp_ok, Message}
use esp32_vehicle_can_core.CanBus.Acquisition.{Bus, to_frame, message_read, receive_message}
use esp32_vehicle_can_core.CanBus.Acquisition.Task.{offer_frame_keeps}

module _ (P : Platform) where
  -- What becomes of a frame, in the terms of the bounded queue.
  abbrev pub Offered : Bus P → RawCanFrame → Bus P × Bool → Type 0
  Offered b f (b', goes_on) =
      (goes_on ≡ true)
      × ((is_valid f ≡ true)
          → contents queue_capacity b'.frames
            ≡ (Fifo.push queue_capacity (contents queue_capacity b.frames) f).0)
      × ((is_valid f ≡ false)
          → (contents queue_capacity b'.frames ≡ contents queue_capacity b.frames)
            × (b'.frames.driver_rx_missed ≡ u64 (b.frames.driver_rx_missed + 1)))

  message_read-Offered :
      (b : Bus P) (m : Message)
      → Inv queue_capacity b.frames
      → IsFit queue_capacity
      → Offered b (to_frame P b m (P.timer_us b.world).1) (message_read P b esp_ok m)
  unfolding message_read record_driver_rx_missed
  message_read-Offered b m v fit =
      let stamped = record b { world = (P.timer_us b.world).0 } in
      let f = to_frame P b m (P.timer_us b.world).1 in
      let (_, _, valid, invalid) = offer_frame_keeps P stamped f in
      (
        refl,
        λ h. rw (valid h) (
            ap (λ (t : List RawCanFrame × Bool). t.0)
              (push_refines queue_capacity b.frames f fit v)),
        λ h. rw (invalid h) (refl, refl),
      )

  -- With a well-formed ring, a message from the driver becomes a frame that is either a classic CAN
  -- frame and offered to the ring, which queues it or drops it by the rule of the bounded queue, or
  -- is counted as missed and changes nothing that the ring holds; the loop goes on in both cases.
  pub receive_message_lem :
      (b : Bus P) (m : Message)
      → Inv queue_capacity b.frames
      → IsFit queue_capacity
      → (P.driver_receive b.world).1 ≡ esp_ok
      → (P.driver_receive b.world).2 ≡ m
      → Offered b (to_frame P b m (P.timer_us (P.driver_receive b.world).0).1) (receive_message P b)
  unfolding receive_message
  receive_message_lem b m v fit ok same =
      rw (ok, same, receive_message)
        (message_read-Offered (record b { world = (P.driver_receive b.world).0 }) m v fit)
