-- ===== src/CanBus/Acquisition/Stopping.antt =====
-- What a stop of the acquisition leaves behind, on every path.
use esp32_vehicle_can_core.Prelude.{
  ◌≡◌, ◌≢◌, refl, sym, ◌∙◌, ◌⊎◌, inl, inr, Bool, true, false, not, ◌&&◌, arith,
}
use esp32_vehicle_can_core.CanBus.Types.{
  Result, ok, not_started, driver_failure, task_failure, stopped, stopping, faulted, queue_capacity,
}
use esp32_vehicle_can_core.CanBus.Ring.Invariant.{Inv}
use esp32_vehicle_can_core.CanBus.Lifecycle.{LifecycleController, begin_stop, reconcile}
use esp32_vehicle_can_core.CanBus.Platform.{Platform, esp_ok}
use esp32_vehicle_can_core.CanBus.Acquisition.{Bus}
use esp32_vehicle_can_core.CanBus.Acquisition.Stop.{
  stop_driver, join_task, uninstall_driver, release, stop, drain_available_if_any,
}
use esp32_vehicle_can_core.CanBus.Acquisition.Starting.{Owned}

module _ (P : Platform) where
  -- What a receive task may do to the globals while `stop` waits for it: it neither installs nor
  -- starts a driver, it may give up its own ownership, it requests no more rounds, and it keeps the
  -- ring well formed.
  pub record IsTaskLike (others : Bus P → Bus P) : Type 0 where
    pub driver_kept :
        (b : Bus P)
        → ((others b).lifecycle.driver_installed ≡ b.lifecycle.driver_installed)
          × ((others b).lifecycle.driver_started ≡ b.lifecycle.driver_started)
    pub none_created :
        (b : Bus P) → b.lifecycle.task_owned ≡ false → (others b).lifecycle.task_owned ≡ false
    pub none_requested :
        (b : Bus P) → b.receive_requested ≡ false → (others b).receive_requested ≡ false
    pub ring_kept : (b : Bus P) → Inv queue_capacity b.frames → Inv queue_capacity (others b).frames

  -- The ends of a stop that was accepted.
  abbrev pub Stopped : Bus P × Result → Type 0
  Stopped (b, r) =
      (b.receive_requested ≡ false)
      × (((r ≡ ok)
            × (b.lifecycle.state ≡ stopped)
            × (b.lifecycle.driver_installed ≡ false)
            × (b.lifecycle.driver_started ≡ false)
            × (b.lifecycle.task_owned ≡ false)
            × (b.has_receive_task ≡ false))
          ⊎ ((r ≡ driver_failure)
              × (b.lifecycle.state ≡ faulted)
              × (b.lifecycle.driver_installed ≡ true)
              × (b.lifecycle.task_owned ≡ false)
              × (b.has_receive_task ≡ false))
          ⊎ ((r ≡ task_failure)
              × (b.lifecycle.state ≡ stopping)
              × (b.lifecycle.driver_installed ≡ true)
              × (b.lifecycle.task_owned ≡ true))
          ⊎ ((r ≡ task_failure)
              × (b.lifecycle.state ≡ faulted)
              × (b.lifecycle.driver_installed ≡ true)
              × (b.lifecycle.task_owned ≡ false)))

  stop_driver_lem :
      (b : Bus P)
      → let (b1, gone) = stop_driver P b in
        (b1.lifecycle.driver_started ≡ not gone)
        × (gone ≡ false → b.lifecycle.driver_started ≡ true)
        × (b1.lifecycle.driver_installed ≡ b.lifecycle.driver_installed)
        × (b1.lifecycle.task_owned ≡ b.lifecycle.task_owned)
        × (b1.receive_requested ≡ b.receive_requested)
        × (b1.frames ≡ b.frames)
  unfolding stop_driver
  stop_driver_lem b = ground arith

  join_task_lem :
      (others : Bus P → Bus P) (b : Bus P)
      → IsTaskLike others
      → Inv queue_capacity b.frames
      → b.receive_requested ≡ false
      → let (b1, gone) = join_task P others b in
        (gone ≡ true → (b1.lifecycle.task_owned ≡ false) × (b1.has_receive_task ≡ false))
        × (gone ≡ false → b.lifecycle.task_owned ≡ true)
        × (b1.lifecycle.driver_installed ≡ b.lifecycle.driver_installed)
        × (b1.lifecycle.driver_started ≡ b.lifecycle.driver_started)
        × (b1.receive_requested ≡ false)
        × Inv queue_capacity b1.frames
  unfolding join_task
  join_task_lem others b t v off =
      ground (arith, t.driver_kept b, t.none_created b, t.none_requested b, t.ring_kept b v)

  uninstall_driver_lem :
      (d t : Bool) (b : Bus P)
      → let (b1, gone) = uninstall_driver P d t b in
        (b1.lifecycle.driver_installed ≡ not gone)
        × (d && t ≡ false → b1.lifecycle.driver_installed ≡ b.lifecycle.driver_installed)
        × (b1.lifecycle.driver_started ≡ b.lifecycle.driver_started)
        × (b1.lifecycle.task_owned ≡ b.lifecycle.task_owned)
        × (b1.has_receive_task ≡ b.has_receive_task)
        × (b1.receive_requested ≡ b.receive_requested)
        × (b1.frames ≡ b.frames)
  unfolding uninstall_driver
  uninstall_driver_lem d t b = ground arith

  release-Stopped :
      (others : Bus P → Bus P) (b : Bus P)
      → IsTaskLike others
      → Owned P b
      → b.receive_requested ≡ false
      → Stopped (release P others b)
  unfolding release reconcile drain_available_if_any
  release-Stopped others b t v off =
      let (b1, d) = stop_driver P b in
      let (b2, j) = join_task P others b1 in
      let halted = stop_driver_lem b in
      let joined = join_task_lem others b1 t (rw (halted.5) v.ring) (rw (halted.4) off) in
      ground (arith, halted, joined, uninstall_driver_lem d j b2)

  begin_stop_accepts :
      (c : LifecycleController)
      → c.state ≢ stopped
      → ((begin_stop c).1 ≡ true) × ((begin_stop c).0.task_owned ≡ c.task_owned)
  unfolding begin_stop
  begin_stop_accepts c ne = ground arith

  begin_stop_cases :
      (b : Bus P)
      → Owned P b
      → ((b.lifecycle.state ≡ stopped) × ((begin_stop b.lifecycle).1 ≡ false))
        ⊎ ((b.lifecycle.state ≢ stopped)
            × ((begin_stop b.lifecycle).1 ≡ true)
            × Owned P
                (record b { lifecycle = (begin_stop b.lifecycle).0; receive_requested = false }))
  unfolding begin_stop
  begin_stop_cases b v = ground arith

  pub stop_lem :
      (others : Bus P → Bus P) (b : Bus P)
      → IsTaskLike others
      → Owned P b
      → ((b.lifecycle.state ≡ stopped) × (stop P others b ≡ (b, not_started)))
        ⊎ ((b.lifecycle.state ≢ stopped) × Stopped (stop P others b))
  unfolding stop
  stop_lem others b t v = elim (begin_stop_cases b v) [
    | inl (st, e) ↦ inl (st, rw (e, stop))
    | inr (ne, e, v') ↦ inr (ne, rw (e, stop) (release-Stopped others _ t v' refl))
  ]

  Stopped-Owned : (r : Bus P × Result) → Stopped r → Inv queue_capacity r.0.frames → Owned P r.0
  Stopped-Owned r s v = ground arith

  release-frames :
      (others : Bus P → Bus P) (b : Bus P)
      → (release P others b).0.frames ≡ (join_task P others (stop_driver P b).0).0.frames
  unfolding release drain_available_if_any
  release-frames others b =
      let (b1, d) = stop_driver P b in
      let (b2, j) = join_task P others b1 in ground (arith, uninstall_driver_lem d j b2)

  release-Owned :
      (others : Bus P → Bus P) (b : Bus P)
      → IsTaskLike others
      → Owned P b
      → b.receive_requested ≡ false
      → Owned P (release P others b).0
  release-Owned others b t v off =
      let halted = stop_driver_lem b in
      let joined =
        join_task_lem others (stop_driver P b).0 t (rw (halted.5) v.ring) (rw (halted.4) off) in
      Stopped-Owned (release P others b) (release-Stopped others b t v off)
        (rw (release-frames others b) joined.5)

  -- If other tasks do only what a receive task may do, a stop keeps who owns what consistent and
  -- the ring well formed.
  pub stop-Owned :
      (others : Bus P → Bus P) (b : Bus P)
      → IsTaskLike others
      → Owned P b
      → Owned P (stop P others b).0
  unfolding stop
  stop-Owned others b t v = elim (begin_stop_cases b v) [
    | inl (st, e) ↦ rw (e, stop) v
    | inr (ne, e, v') ↦ rw (e, stop) (release-Owned others _ t v' refl)
  ]

  -- The state in which a stop begins to wait for the task.
  abbrev pub waiting : Bus P → Bus P
  waiting b =
      (stop_driver P
        (record b { lifecycle = (begin_stop b.lifecycle).0; receive_requested = false })).0

  release_succeeds :
      (others : Bus P → Bus P) (b : Bus P)
      → (P.driver_stop b.world).1 ≡ esp_ok
      → (b.lifecycle.task_owned ≡ true
          → (P.take_task_stopped (others (stop_driver P b).0).world).1 ≡ true)
      → ((w : P.World) → (P.driver_uninstall w).1 ≡ esp_ok)
      → (release P others b).1 ≡ ok
  unfolding release
  release_succeeds others b stops acks uninstalls =
      let b1 = (stop_driver P b).0 in
      let b2 = (join_task P others b1).0 in
      let halts : (stop_driver P b).1 ≡ true = unfold stop_driver in ground arith in
      let joins : (join_task P others b1).1 ≡ true =
        let same = stop_driver_lem b in unfold join_task in ground (arith, same) in
      let frees : (uninstall_driver P true true b2).1 ≡ true =
        let u = uninstalls b2.world in unfold uninstall_driver in ground (arith, u) in
      rw (halts, joins, frees)

  -- A stop of an acquisition that is not stopped can be retried until it succeeds: whatever an
  -- earlier attempt left behind, it succeeds once the driver stops, the driver uninstalls, and the
  -- task, if it is still owned, has signalled its end by the time that the wait is over.
  pub stop_succeeds :
      (others : Bus P → Bus P) (b : Bus P)
      → b.lifecycle.state ≢ stopped
      → (P.driver_stop b.world).1 ≡ esp_ok
      → (b.lifecycle.task_owned ≡ true → (P.take_task_stopped (others (waiting b)).world).1 ≡ true)
      → ((w : P.World) → (P.driver_uninstall w).1 ≡ esp_ok)
      → (stop P others b).1 ≡ ok
  unfolding stop
  stop_succeeds others b ne stops acks uninstalls =
      let (accepted, same_task) = begin_stop_accepts b.lifecycle ne in
      rw (accepted, stop)
        (release_succeeds others
          (record b { lifecycle = (begin_stop b.lifecycle).0; receive_requested = false }) stops
          (λ owned. acks (sym same_task ∙ owned)) uninstalls)
