-- ===== src/Telemetry/Source/Ownership.antt =====
-- What CanBusSource of components/vehicle_telemetry/src/can_bus_source.cpp owns of the bus.
use esp32_vehicle_can_core.Prelude.{
  ◌≡◌, ◌≢◌, refl, ◌⊎◌, inl, inr, true, false, arith, Bool-cases, ◌||◌, if◌then◌else◌,
}
use esp32_vehicle_can_core.CanBus.Types.{is_configuration_valid, Result, LifecycleState}
use esp32_vehicle_can_core.CanBus.Platform.{Platform, esp_ok}
use esp32_vehicle_can_core.CanBus.Acquisition.{Bus}
use esp32_vehicle_can_core.CanBus.Acquisition.Start.{start_with_ownership}
use esp32_vehicle_can_core.CanBus.Acquisition.Stop
use esp32_vehicle_can_core.CanBus.Acquisition.Starting.{Owned, start_with_ownership_lem}
use esp32_vehicle_can_core.CanBus.Acquisition.Interval.{start_with_ownership-Owned}
use esp32_vehicle_can_core.CanBus.Acquisition.Stopping.{
  IsTaskLike, Stopped, stop_lem, stop-Owned, stop_succeeds, waiting,
}
use esp32_vehicle_can_core.CanBus.Lifecycle.{begin_start, is_stopped}
use esp32_vehicle_can_core.Telemetry.Types.{ResultCode, is_ok}
use esp32_vehicle_can_core.Telemetry.Source.{
  CanBusSource, map_start_result, map_stop_result, start, stop, retry_stop, is_not_running,
}

module _ (P : Platform) where
  -- The bus is consistent, and who has not to clean up has left a stopped bus, if nobody else
  -- starts it.
  pub record Accounted (s : CanBusSource P) : Type 0 where
    pub bus : Owned P s.bus
    pub free : s.owns_acquisition ≡ false → s.bus.lifecycle.state ≡ LifecycleState.stopped

  -- After a start: it runs and is owned; it failed and is owned, to be cleaned up; or it failed and
  -- is not owned, and the bus is stopped.
  abbrev pub Begun : CanBusSource P × ResultCode → Type 0
  Begun (s, r) =
      ((r ≡ ResultCode.ok)
        × (s.owns_acquisition ≡ true)
        × (s.bus.lifecycle.state ≡ LifecycleState.running))
      ⊎ ((r ≡ ResultCode.faulted)
          × (s.owns_acquisition ≡ true)
          × (s.bus.lifecycle.state ≡ LifecycleState.faulted))
      ⊎ (((r ≡ ResultCode.faulted) ⊎ (r ≡ ResultCode.invalid_configuration))
          × (s.owns_acquisition ≡ false)
          × (s.bus.lifecycle.state ≡ LifecycleState.stopped))

  start_begins :
      (others : Bus P → Bus P) (s : CanBusSource P)
      → Owned P s.bus
      → s.owns_acquisition ≡ false
      → s.bus.lifecycle.state ≡ LifecycleState.stopped
      → Begun (start P others s)
  unfolding start map_start_result
  start_begins others s v free st =
      let ended = start_with_ownership_lem P others s.configuration s.bus v st in
      ground (arith, ended)

  -- A start that finds the bus in other hands: it fails and adopts nothing. Only what other tasks do
  -- meanwhile happens to the bus.
  abbrev pub Refused : (Bus P → Bus P) → CanBusSource P → CanBusSource P × ResultCode → Type 0
  Refused others s (s', r) =
      ((is_configuration_valid s.configuration ≡ false)
        × (s' ≡ s)
        × (r ≡ ResultCode.invalid_configuration))
      ⊎ ((is_configuration_valid s.configuration ≡ true)
          × (s' ≡ record s { bus = others s.bus })
          × (r ≢ ResultCode.ok))

  start_refused :
      (others : Bus P → Bus P) (s : CanBusSource P)
      → s.owns_acquisition ≡ false
      → s.bus.lifecycle.state ≢ LifecycleState.stopped
      → Refused others s (start P others s)
  unfolding start start_with_ownership begin_start map_start_result
  start_refused others s free ne = ground arith

  -- A start of a source that owns nothing, of a consistent bus. If the bus is stopped, the source
  -- then owns a running bus, or fails and owns a faulted bus, or fails and owns nothing of a stopped
  -- bus. If it is not, another owner's acquisition is never adopted: the start fails, the source
  -- owns nothing, and nothing but what other tasks do happens to the bus.
  pub start-Begun :
      (others : Bus P → Bus P) (s : CanBusSource P)
      → Owned P s.bus
      → s.owns_acquisition ≡ false
      → ((s.bus.lifecycle.state ≡ LifecycleState.stopped) × Begun (start P others s))
        ⊎ ((s.bus.lifecycle.state ≢ LifecycleState.stopped) × Refused others s (start P others s))
  start-Begun others s v free = elim (Bool-cases (is_stopped s.bus.lifecycle.state)) [
    | inl st ↦
        let stopped : s.bus.lifecycle.state ≡ LifecycleState.stopped = ground arith in
        inl (stopped, start_begins others s v free stopped)
    | inr running ↦
        let ne : s.bus.lifecycle.state ≢ LifecycleState.stopped = λ e. ground arith in
        inr (ne, start_refused others s free ne)
  ]

  -- What a start of an owning source does to the ownership: nothing.
  start_keeps_owning :
      (others : Bus P → Bus P) (s : CanBusSource P)
      → s.owns_acquisition ≡ true
      → (start P others s).0.owns_acquisition ≡ true
  unfolding start
  start_keeps_owning others s owns = ground arith

  start_bus :
      (others : Bus P → Bus P) (s : CanBusSource P)
      → (start P others s).0.bus ≡ (start_with_ownership P others s.configuration s.bus).0
  unfolding start
  start_bus others s = refl

  Begun-free :
      (r : CanBusSource P × ResultCode)
      → Begun r
      → r.0.owns_acquisition ≡ false
      → r.0.bus.lifecycle.state ≡ LifecycleState.stopped
  Begun-free r b e = ground arith

  -- A start leaves a source accountable: the bus is consistent, and stopped if the source does not
  -- own it.
  pub start-Accounted :
      (others : Bus P → Bus P) (s : CanBusSource P)
      → Owned P (others s.bus)
      → Accounted s
      → Accounted (start P others s).0
  start-Accounted others s v' a = record {
    bus =
        rw (start_bus others s)
          (start_with_ownership-Owned P others s.configuration s.bus v' a.bus);
    free = λ e. elim (Bool-cases s.owns_acquisition) [
      | inl owns ↦ let kept = start_keeps_owning others s owns in absurd cc
      | inr free ↦ Begun-free (start P others s) (start_begins others s a.bus free (a.free free)) e
    ];
  }

  -- After a stop: nothing was owned and nothing changes; or the bus is released, or was stopped
  -- already, and is not owned any more; or the stop failed and the bus is still owned.
  abbrev pub Over : CanBusSource P → CanBusSource P × ResultCode → Type 0
  Over s (s', r) =
      ((s.owns_acquisition ≡ false) × (r ≡ ResultCode.not_running) × (s' ≡ s))
      ⊎ ((s.owns_acquisition ≡ true)
          × ((r ≡ ResultCode.ok) ⊎ (r ≡ ResultCode.not_running))
          × (s'.owns_acquisition ≡ false)
          × (s'.bus.lifecycle.state ≡ LifecycleState.stopped))
      ⊎ ((s.owns_acquisition ≡ true)
          × (r ≡ ResultCode.faulted)
          × (s'.owns_acquisition ≡ true)
          × (s'.bus.lifecycle.state ≢ LifecycleState.stopped))

  ends_as :
      (s s' : CanBusSource P) (r : Result)
      → s.owns_acquisition ≡ true
      → s'.owns_acquisition
        ≡ (if is_ok (map_stop_result r) || is_not_running (map_stop_result r) then false else true)
      → ((s'.bus.lifecycle.state ≡ LifecycleState.stopped) × (r ≡ Result.not_started))
        ⊎ Stopped P (s'.bus, r)
      → Over s (s', map_stop_result r)
  unfolding map_stop_result
  ends_as s s' r owns e c = ground arith

  stop_owned :
      (others : Bus P → Bus P) (s : CanBusSource P)
      → s.owns_acquisition ≡ true
      → let (b, r) = Stop.stop P others s.bus in
        stop P others s ≡ (
          record s {
            bus = b;
            owns_acquisition =
                if is_ok (map_stop_result r) || is_not_running (map_stop_result r)
                then false
                else true;
          },
          map_stop_result r,
        )
  unfolding stop
  stop_owned others s owns = simp owns

  stop_unowned :
      (others : Bus P → Bus P) (s : CanBusSource P)
      → s.owns_acquisition ≡ false
      → stop P others s ≡ (s, ResultCode.not_running)
  unfolding stop
  stop_unowned others s free = simp free

  stop_cases :
      (others : Bus P → Bus P) (s : CanBusSource P)
      → IsTaskLike P others
      → Accounted s
      → let r = Stop.stop P others s.bus in
        ((r.0.lifecycle.state ≡ LifecycleState.stopped) × (r.1 ≡ Result.not_started)) ⊎ Stopped P r
  stop_cases others s t a = elim (stop_lem P others s.bus t a.bus) [
    | inl (st, e) ↦ inl (rw e st, rw e refl)
    | inr (ne, c) ↦ inr c
  ]

  -- From an accountable source, and if other tasks do only what a receive task may do: a stop of a
  -- source that owns nothing changes nothing; any other stop either leaves the bus stopped and
  -- gives up the ownership, or fails, leaves the bus not stopped and retains the ownership.
  pub stop-Over :
      (others : Bus P → Bus P) (s : CanBusSource P)
      → IsTaskLike P others
      → Accounted s
      → Over s (stop P others s)
  stop-Over others s t a = elim (Bool-cases s.owns_acquisition) [
    | inr free ↦ rw (stop_unowned others s free) (inl (free, refl, refl))
    | inl owns ↦
        let (b, r) = Stop.stop P others s.bus in
        rw (stop_owned others s owns) (ends_as s _ r owns refl (stop_cases others s t a))
  ]

  stop_bus :
      (others : Bus P → Bus P) (s : CanBusSource P)
      → ((stop P others s).0.bus ≡ s.bus) ⊎ ((stop P others s).0.bus ≡ (Stop.stop P others s.bus).0)
  stop_bus others s = elim (Bool-cases s.owns_acquisition) [
    | inr free ↦ inl (rw (stop_unowned others s free) refl)
    | inl owns ↦ inr (rw (stop_owned others s owns) refl)
  ]

  Over-free :
      (s : CanBusSource P) (r : CanBusSource P × ResultCode)
      → Accounted s
      → Over s r
      → r.0.owns_acquisition ≡ false
      → r.0.bus.lifecycle.state ≡ LifecycleState.stopped
  Over-free s r a (inl (free, _, same)) e = rw same (a.free free)
  Over-free s r a (inr (inl (_, _, _, st))) e = st
  Over-free s r a (inr (inr (_, _, owns, _))) e = absurd cc

  -- A stop leaves a source accountable.
  pub stop-Accounted :
      (others : Bus P → Bus P) (s : CanBusSource P)
      → IsTaskLike P others
      → Accounted s
      → Accounted (stop P others s).0
  stop-Accounted others s t a = record {
    bus = elim (stop_bus others s) [
      | inl e ↦ rw e a.bus
      | inr e ↦ rw e (stop-Owned P others s.bus t a.bus)
    ];
    free = Over-free s (stop P others s) a (stop-Over others s t a);
  }

  -- A retry of the stop of a source that owns a bus not yet stopped releases the bus and gives up
  -- the ownership, whatever an earlier stop left behind, once the driver stops and uninstalls and
  -- the task, if it is still owned, has signalled its end.
  pub retry_stop_succeeds :
      (others : Bus P → Bus P) (s : CanBusSource P)
      → s.owns_acquisition ≡ true
      → s.bus.lifecycle.state ≢ LifecycleState.stopped
      → (P.driver_stop s.bus.world).1 ≡ esp_ok
      → (s.bus.lifecycle.task_owned ≡ true
          → (P.take_task_stopped (others (waiting P s.bus)).world).1 ≡ true)
      → ((w : P.World) → (P.driver_uninstall w).1 ≡ esp_ok)
      → ((retry_stop P others s).1 ≡ ResultCode.ok)
        × ((retry_stop P others s).0.owns_acquisition ≡ false)
  unfolding retry_stop map_stop_result
  retry_stop_succeeds others s owns ne stops acks uninstalls =
      let done = stop_succeeds P others s.bus ne stops acks uninstalls in
      rw (stop_owned others s owns, done) (refl, refl)
