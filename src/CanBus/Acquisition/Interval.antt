-- ===== src/CanBus/Acquisition/Interval.antt =====
-- A start opens a new interval: an empty ring, zero counters, drained semaphores.
use esp32_vehicle_can_core.Prelude.{
  ◌≡◌, ◌≢◌, ap, ◌⊎◌, inl, inr, Bool, true, false, [], arith, if◌then◌else◌,
}
use esp32_vehicle_can_core.CanBus.Types.{
  ok, invalid_configuration, stopped, LifecycleState-discrete, Configuration, queue_capacity,
  no_counts, is_configuration_valid,
}
use esp32_vehicle_can_core.CanBus.Ring.{FrameRing, clear, record_controller_reset}
use esp32_vehicle_can_core.CanBus.Ring.Invariant.{Inv, clear-Inv, record_controller_reset-Inv}
use esp32_vehicle_can_core.CanBus.Ring.Window.{contents}
use esp32_vehicle_can_core.CanBus.Ring.Refine.{clear_lem}
use esp32_vehicle_can_core.CanBus.Lifecycle.{begin_start, mark_driver_installed}
use esp32_vehicle_can_core.CanBus.Platform.{Platform}
use esp32_vehicle_can_core.CanBus.Acquisition.{Bus}
use esp32_vehicle_can_core.CanBus.Acquisition.Start.{
  StartOutcome, outcome, refusal, create_semaphores, drain_semaphores, undo_launch, launch,
  undo_install, open_driver, acquire, start_with_ownership, prepare_run, install_config,
}
use esp32_vehicle_can_core.CanBus.Acquisition.Starting.{
  Owned, Ended, create_semaphores_keeps, start_with_ownership_lem,
}

-- The ring of the new interval.
abbrev pub renewed : Bool → FrameRing → FrameRing
renewed before r =
    if before then record_controller_reset (clear queue_capacity r) 1 else clear queue_capacity r

renewed-Inv :
    (before : Bool) (r : FrameRing) → Inv queue_capacity r → Inv queue_capacity (renewed before r)
renewed-Inv true r v = record_controller_reset-Inv _ 1 (clear-Inv queue_capacity r v)
renewed-Inv false r v = clear-Inv queue_capacity r v

renewed_lem :
    (before : Bool) (r : FrameRing)
    → Inv queue_capacity r
    → (contents queue_capacity (renewed before r) ≡ [])
      × ((renewed before r).counters
          ≡ record no_counts { controller_resets = if before then 1 else 0 })
      × ((renewed before r).queue_high_watermark ≡ 0)
unfolding record_controller_reset
renewed_lem true r v =
    let (empty, none_counted, low) = clear_lem queue_capacity r v in (empty, rw none_counted, low)
renewed_lem false r v = clear_lem queue_capacity r v

module _ (P : Platform) where
  abbrev Frames : FrameRing → Bool → Bus P × StartOutcome → Type 0
  Frames r before (b, o) =
      ((b.frames ≡ renewed before r) × (o.result ≡ ok → b.has_started_before ≡ true))
      ⊎ ((b.frames ≡ r) × (o.result ≢ ok))

  undo_launch-frames :
      (b : Bus P) → ((undo_launch P b).0.frames ≡ b.frames) × ((undo_launch P b).1.result ≢ ok)
  unfolding undo_launch
  undo_launch-frames b = ground arith

  undo_install-frames :
      (b : Bus P) → ((undo_install P b).0.frames ≡ b.frames) × ((undo_install P b).1.result ≢ ok)
  unfolding undo_install
  undo_install-frames b = ground arith

  launch-Frames :
      (c : Configuration) (b : Bus P) → Frames b.frames b.has_started_before (launch P c b)
  unfolding launch
  launch-Frames c b =
      let ready = prepare_run P c b in
      ground (arith, undo_launch-frames (record ready { world = (P.create_task b.world).0 }))

  open_driver-Frames :
      (c : Configuration) (b : Bus P) → Frames b.frames b.has_started_before (open_driver P c b)
  unfolding open_driver
  open_driver-Frames c b =
      let (w1, i) = P.driver_install (install_config c) b.world in
      let (w2, s) = P.driver_start w1 in
      let owner = record b { world = w2; lifecycle = mark_driver_installed b.lifecycle } in
      ground (arith, launch-Frames c owner, undo_install-frames owner)

  acquire-Frames :
      (c : Configuration) (b : Bus P) → Frames b.frames b.has_started_before (acquire P c b)
  unfolding acquire
  acquire-Frames c b = ground (
    arith,
    create_semaphores_keeps P b,
    open_driver-Frames c (drain_semaphores P (create_semaphores P b)),
  )

  start-Frames :
      (others : Bus P → Bus P) (c : Configuration) (b : Bus P)
      → b.lifecycle.state ≡ stopped
      → Frames b.frames b.has_started_before (start_with_ownership P others c b)
  unfolding start_with_ownership
  start-Frames others c b st =
      ground (arith, acquire-Frames c (record b { lifecycle = (begin_start b.lifecycle).0 }))

  Frames-Inv :
      (r : FrameRing) (before : Bool) (b : Bus P) (o : StartOutcome)
      → Inv queue_capacity r
      → Frames r before (b, o)
      → Inv queue_capacity b.frames
  Frames-Inv r before b o v (inl (e, _)) = rw e (renewed-Inv before r v)
  Frames-Inv r before b o v (inr (e, _)) = rw e v

  Ended-Owned :
      (b : Bus P) (o : StartOutcome) → Ended P (b, o) → Inv queue_capacity b.frames → Owned P b
  Ended-Owned b o e v = ground arith

  start_refused :
      (others : Bus P → Bus P) (c : Configuration) (b : Bus P)
      → b.lifecycle.state ≢ stopped
      → (start_with_ownership P others c b ≡ (b, outcome invalid_configuration false))
        ⊎ (start_with_ownership P others c b
            ≡ (others b, outcome (refusal (others b).lifecycle.state) false))
  unfolding start_with_ownership
  start_refused others c b running = ground arith

  start_stopped-Owned :
      (others : Bus P → Bus P) (c : Configuration) (b : Bus P)
      → Owned P b
      → b.lifecycle.state ≡ stopped
      → Owned P (start_with_ownership P others c b).0
  start_stopped-Owned others c b v st =
      let r = start_with_ownership P others c b in
      let ring =
        Frames-Inv b.frames b.has_started_before r.0 r.1 v.ring (start-Frames others c b st) in
      go (start_with_ownership P others c b) (start_with_ownership_lem P others c b v st) ring
    where
      go :
          (r : Bus P × StartOutcome)
          → ((is_configuration_valid c ≡ true) × Ended P r)
            ⊎ ((is_configuration_valid c ≡ false) × (r ≡ (b, outcome invalid_configuration false)))
          → Inv queue_capacity r.0.frames
          → Owned P r.0
      go (b', o) (inl (_, e)) ring = Ended-Owned b' o e ring
      go (b', o) (inr (_, e)) ring = rw (ap (λ (t : Bus P × StartOutcome). t.0) e) v

  -- A start keeps who owns what consistent and the ring well formed, whatever the driver answers, if
  -- what other tasks do meanwhile keeps them so.
  pub start_with_ownership-Owned :
      (others : Bus P → Bus P) (c : Configuration) (b : Bus P)
      → Owned P (others b)
      → Owned P b
      → Owned P (start_with_ownership P others c b).0
  start_with_ownership-Owned others c b v' v =
      elim (LifecycleState-discrete b.lifecycle.state stopped) [
        | yes st ↦ start_stopped-Owned others c b v st
        | no ne ↦ elim (start_refused others c b ne) [ inl e ↦ rw e v | inr e ↦ rw e v' ]
      ]

  -- From consistent, stopped globals, a start that succeeds opens a new interval: the ring is
  -- empty, every counter is zero, but for one controller reset if an earlier start had succeeded,
  -- and the watermark is zero.
  pub start_opens_interval :
      (others : Bus P → Bus P) (c : Configuration) (b : Bus P)
      → Owned P b
      → b.lifecycle.state ≡ stopped
      → (start_with_ownership P others c b).1.result ≡ ok
      → let r = (start_with_ownership P others c b).0.frames in
        (contents queue_capacity r ≡ [])
        × (r.counters
            ≡ record no_counts { controller_resets = if b.has_started_before then 1 else 0 })
        × (r.queue_high_watermark ≡ 0)
  start_opens_interval others c b v st h =
      go b.has_started_before (start_with_ownership P others c b) (start-Frames others c b st) h
    where
      go :
          (before : Bool) (r : Bus P × StartOutcome)
          → Frames b.frames before r
          → r.1.result ≡ ok
          → (contents queue_capacity r.0.frames ≡ [])
            × (r.0.frames.counters
                ≡ record no_counts { controller_resets = if before then 1 else 0 })
            × (r.0.frames.queue_high_watermark ≡ 0)
      go before (b', o) (inl (e, _)) done = rw e (renewed_lem before b.frames v.ring)
      go before (b', o) (inr (e, failed)) done = absurd (failed done)
