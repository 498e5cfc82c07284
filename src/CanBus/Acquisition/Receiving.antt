-- ===== src/CanBus/Acquisition/Receiving.antt =====
-- What receive of components/can_bus/src/can_bus.cpp answers.
use esp32_vehicle_can_core.Prelude.{
  ◌≡◌, ◌≢◌, refl, ap, ◌∙◌, ◌⊎◌, inl, inr, Bool, true, false, Option, none, some, List, [], ◌∷◌,
  arith,
}
use esp32_vehicle_can_core.VehicleCore.Frame.{RawCanFrame}
use esp32_vehicle_can_core.CanBus.Types.{
  Result, ok, timeout, driver_failure, stopped, running, LifecycleState, queue_capacity,
}
use esp32_vehicle_can_core.CanBus.Fifo
use esp32_vehicle_can_core.CanBus.Ring.{FrameRing, pop}
use esp32_vehicle_can_core.CanBus.Ring.Invariant.{Inv}
use esp32_vehicle_can_core.CanBus.Ring.Window.{IsFit, contents}
use esp32_vehicle_can_core.CanBus.Ring.Refine.{pop_refines}
use esp32_vehicle_can_core.CanBus.Platform.{Platform}
use esp32_vehicle_can_core.CanBus.Acquisition.{Bus}
use esp32_vehicle_can_core.CanBus.Acquisition.Stop.{
  ended, pop_result, pop_frame, woken, receive, unless_ended,
}

module _ (P : Platform) where
  -- The oldest frame held, if there is one.
  abbrev pub Delivers : List RawCanFrame → Bus P × Result × Option RawCanFrame → Type 0
  Delivers [] (b, r, o) =
      (r ≡ driver_failure) × (o ≡ none) × (contents queue_capacity b.frames ≡ [])
  Delivers (f ∷ rest) (b, r, o) =
      (r ≡ ok) × (o ≡ some f) × (contents queue_capacity b.frames ≡ rest)

  pop_frame-Delivers :
      (b : Bus P) (held : List RawCanFrame)
      → IsFit queue_capacity
      → Inv queue_capacity b.frames
      → contents queue_capacity b.frames ≡ held
      → Delivers held (pop_frame P b)
  unfolding pop_frame Fifo.pop
  pop_frame-Delivers b held fit v e = go held same
    where
      r : FrameRing × Option RawCanFrame
      r = pop queue_capacity b.frames

      same : (contents queue_capacity r.0, r.1) ≡ Fifo.pop held
      same = pop_refines queue_capacity b.frames fit v ∙ ap Fifo.pop e

      go :
          (l : List RawCanFrame)
          → (contents queue_capacity r.0, r.1) ≡ Fifo.pop l
          → Delivers l (pop_frame P b)
      go [] p =
          let nothing = ap (λ (t : List RawCanFrame × Option RawCanFrame). t.1) p in
          (
            ap pop_result nothing,
            nothing,
            ap (λ (t : List RawCanFrame × Option RawCanFrame). t.0) p,
          )
      go (f ∷ rest) p =
          let found = ap (λ (t : List RawCanFrame × Option RawCanFrame). t.1) p in
          (ap pop_result found, found, ap (λ (t : List RawCanFrame × Option RawCanFrame). t.0) p)

  -- The three ways in which a call of `receive` ends, from its caller's view. `b'` is what the wait
  -- leaves.
  abbrev pub Received : (Bus P → Bus P) → Bus P → Bus P × Result × Option RawCanFrame → Type 0
  Received others b (b', r, o) =
      ((b.lifecycle.state ≢ running) × (ended b.lifecycle.state ≡ some r) × (o ≡ none) × (b' ≡ b))
      ⊎ ((b.lifecycle.state ≡ running)
          × ((others b).lifecycle.state ≢ running)
          × (ended (others b).lifecycle.state ≡ some r)
          × (o ≡ none)
          × (b'.frames ≡ (others b).frames))
      ⊎ ((b.lifecycle.state ≡ running)
          × ((others b).lifecycle.state ≡ running)
          × ((P.take_available (others b).world).1 ≡ false)
          × (r ≡ timeout)
          × (o ≡ none)
          × (b'.frames ≡ (others b).frames))
      ⊎ ((b.lifecycle.state ≡ running)
          × ((others b).lifecycle.state ≡ running)
          × ((P.take_available (others b).world).1 ≡ true)
          × Delivers (contents queue_capacity (others b).frames) (b', r, o))

  woken-cases :
      (b' : Bus P) (taken : Bool) (k : LifecycleState)
      → b'.lifecycle.state ≡ k
      → ((k ≢ running)
          × (ended k ≡ some (woken P b' taken).1)
          × ((woken P b' taken).2 ≡ none)
          × ((woken P b' taken).0.frames ≡ b'.frames))
        ⊎ ((k ≡ running) × (taken ≡ false) × (woken P b' taken ≡ (b', timeout, none)))
        ⊎ ((k ≡ running) × (taken ≡ true) × (woken P b' taken ≡ pop_frame P b'))
  unfolding woken
  woken-cases b' true stopped e = ground arith
  woken-cases b' true k e = ground arith
  woken-cases b' false k e = ground arith

  receive-ended :
      (others : Bus P → Bus P) (b : Bus P) (r : Result)
      → ended b.lifecycle.state ≡ some r
      → receive P others b ≡ (b, r, none)
  unfolding receive
  receive-ended others b r e =
      let w = P.take_available (others b).world in
      ap (λ o. unless_ended P o b (woken P (record (others b) { world = w.0 }) w.1)) e

  receive-waits :
      (others : Bus P → Bus P) (b : Bus P)
      → ended b.lifecycle.state ≡ none
      → receive P others b
        ≡ woken P
            (record (others b) { world = (P.take_available (others b).world).0 })
            (P.take_available (others b).world).1
  unfolding receive
  receive-waits others b e =
      let w = P.take_available (others b).world in
      ap (λ o. unless_ended P o b (woken P (record (others b) { world = w.0 }) w.1)) e

  ended-cases :
      (k : LifecycleState)
      → ((k ≡ running) × (ended k ≡ none)) ⊎ ((r : Result) × (k ≢ running) × (ended k ≡ some r))
  ended-cases running = inl (refl, refl)
  ended-cases stopped = inr (_, (λ e. cc), refl)
  ended-cases k = inr (_, (λ e. cc), refl)

  -- With a well-formed ring at the end of the wait, `receive` answers a state other than running as
  -- it is, before the wait and after it; in a running acquisition it times out exactly without a
  -- token, and with one it delivers the oldest frame of the ring, which leaves it, or fails if the
  -- token came without a frame.
  pub receive_lem :
      (others : Bus P → Bus P) (b : Bus P)
      → IsFit queue_capacity
      → Inv queue_capacity (others b).frames
      → Received others b (receive P others b)
  receive_lem others b fit v = elim (ended-cases b.lifecycle.state) [
    | inr (r, ne, e) ↦ rw (receive-ended others b r e) (inl (ne, e, refl, refl))
    | inl (now, e) ↦
        let (w, taken) = P.take_available (others b).world in
        let b' = record (others b) { world = w } in
        rw (receive-waits others b e) (elim (woken-cases b' taken (others b).lifecycle.state refl) [
          | inl (ne, r, o, same) ↦ inr (inl (now, ne, r, o, same))
          | inr (inl (on, none_taken, e')) ↦
              rw e' (inr (inr (inl (now, on, none_taken, refl, refl, refl))))
          | inr (inr (on, some_taken, e')) ↦ rw e' (
              inr (
                inr (
                  inr (
                    now,
                    on,
                    some_taken,
                    pop_frame-Delivers b' (contents queue_capacity (others b).frames) fit v refl,
                  ))))
        ])
  ]
