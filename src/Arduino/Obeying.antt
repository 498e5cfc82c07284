-- ===== src/Arduino/Obeying.antt =====
-- examples/arduino/ReceiveOnlyRuntime: what any sequence of commands makes of the runtime.
use esp32_vehicle_can_core.Prelude.{
  ℕ, ◌≡◌, ◌≢◌, ◌⊎◌, inl, inr, refl, Bool-cases, Bool, true, false, Option, none, some, List, [],
  ◌∷◌, arith, leb, if_elim, sub32, not,
}
use esp32_vehicle_can_core.Telemetry.Types.{is_ok, ResultCode, LifecycleState, is_config_valid}
use esp32_vehicle_can_core.Telemetry.Runtime.{Surroundings, Runtime}
use esp32_vehicle_can_core.Telemetry.Runtime.Ownership.{Free, Consistent}
use esp32_vehicle_can_core.Telemetry.Runtime.Control.{is_stopped, configure, start, stop}
use esp32_vehicle_can_core.Telemetry.Runtime.Starting.{start-Consistent, configure-Consistent}
use esp32_vehicle_can_core.Telemetry.Runtime.Stopping.{IsWorkerLike, worker-Consistent}
use esp32_vehicle_can_core.Arduino.Control.{
  Command, stop_command, restart_command, diagnostics_command, other_command, command_of,
  stop_checked, stop_runtime, start_runtime, restarted, obey, obey_any, loop, loops, sketch,
}
use esp32_vehicle_can_core.Telemetry.Types.{default_config}
use esp32_vehicle_can_core.Arduino.Settling.{
  Settles, stop_checked-Settles, read_diagnostics-Consistent,
}

module _ (E : Surroundings) (reset_observer : E.World → E.World) where
  -- The runtime that `start_runtime` starts, from a stopped one.
  abbrev pub to_start : Runtime E → Runtime E
  to_start r = record r { config = default_config; world = reset_observer r.world }

module _ (E : Surroundings) (reset_observer : E.World → E.World)
    (others : Runtime E → Runtime E) where
  on_world-Consistent :
      (r : Runtime E) → Consistent E r → Consistent E (record r { world = reset_observer r.world })
  on_world-Consistent r c = ground arith

  stop_runtime-Consistent :
      (r : Runtime E)
      → IsWorkerLike E others
      → Consistent E r
      → Consistent E (stop_runtime E others r).0
  stop_runtime-Consistent r l c = let (s, same) = stop_checked-Settles E others r l c in rw same s.0

  start_runtime-Consistent :
      (r : Runtime E)
      → IsWorkerLike E others
      → Consistent E r
      → Consistent E (start_runtime E reset_observer others r)
  unfolding start_runtime
  start_runtime-Consistent r l c =
      let r1 = (configure E default_config r).0 in
      let c1 = configure-Consistent E default_config r c in
      let rr : Runtime E = record r1 { world = reset_observer r1.world } in
      let c2 = start-Consistent E rr (on_world-Consistent r1 c1) in
      if_elim (Consistent E) (not (is_stopped r.lifecycle)) c (
        if_elim (Consistent E) (not (is_ok (configure E default_config r).1)) c1 (
          if_elim (Consistent E) (is_ok (start E rr).1) c2
            (stop_runtime-Consistent (start E rr).0 l c2)))

  restarted-Consistent :
      (r : Runtime E) (done : Bool)
      → IsWorkerLike E others
      → Consistent E r
      → Consistent E (restarted E reset_observer others (r, done))
  restarted-Consistent r true l c = start_runtime-Consistent r l c
  restarted-Consistent r false l c = c

  obey-Consistent :
      (command : Command) (r : Runtime E)
      → IsWorkerLike E others
      → Consistent E r
      → Consistent E (obey E reset_observer others command r)
  unfolding obey
  obey-Consistent stop_command r l c = stop_runtime-Consistent r l c
  obey-Consistent restart_command r l c =
      let (r1, done) = stop_runtime E others r in
      restarted-Consistent r1 done l (stop_runtime-Consistent r l c)
  obey-Consistent diagnostics_command r l c = read_diagnostics-Consistent E r c
  obey-Consistent other_command r l c = c

  obey_any-Consistent :
      (available : Option ℕ) (r : Runtime E)
      → IsWorkerLike E others
      → Consistent E r
      → Consistent E (obey_any E reset_observer others available r)
  obey_any-Consistent none r l c = c
  obey_any-Consistent (some byte) r l c = obey-Consistent (command_of byte) r l c

  loop-Consistent :
      (available : Option ℕ) (now previous_report : ℕ) (r : Runtime E)
      → IsWorkerLike E others
      → Consistent E r
      → Consistent E (loop E reset_observer others available now (r, previous_report)).0
  unfolding loop
  loop-Consistent available now previous_report r l c =
      let r1 = obey_any E reset_observer others available r in
      let c1 = obey_any-Consistent available r l c in
      worker-Consistent E others _ l (
        if_elim (Consistent E) (leb 1000 (sub32 now previous_report))
          (read_diagnostics-Consistent E r1 c1) c1)

  loops-Consistent :
      (events : List (Option ℕ × ℕ)) (s : Runtime E × ℕ)
      → IsWorkerLike E others
      → Consistent E s.0
      → Consistent E (loops E reset_observer others events s).0
  unfolding loops
  loops-Consistent [] s l c = c
  loops-Consistent ((available, now) ∷ later) (r, previous_report) l c =
      loops-Consistent later (loop E reset_observer others available now (r, previous_report)) l
        (loop-Consistent available now previous_report r l c)

  -- Whatever bytes arrive at the ReceiveOnlyRuntime sketch and whatever the clock says, its runtime
  -- stays consistent, through starts that fail, stops that are not complete and their retries, if it
  -- is consistent at first and the worker does only what a stop relies on.
  pub sketch-Consistent :
      (events : List (Option ℕ × ℕ)) (r : Runtime E)
      → IsWorkerLike E others
      → Consistent E r
      → Consistent E (sketch E reset_observer others events r)
  unfolding sketch
  sketch-Consistent events r l c =
      loops-Consistent events (start_runtime E reset_observer others r, 0) l
        (start_runtime-Consistent r l c)

  configure_default :
      (r : Runtime E)
      → r.lifecycle ≡ LifecycleState.stopped
      → r.lifecycle_operation_active ≡ false
      → configure E default_config r ≡ (record r { config = default_config }, ResultCode.ok)
  unfolding configure is_config_valid
  configure_default r st idle = simp (st, idle)

  pub start_runtime_starts :
      (r : Runtime E)
      → r.lifecycle ≡ LifecycleState.stopped
      → r.lifecycle_operation_active ≡ false
      → (start E (to_start E reset_observer r)).1 ≡ ResultCode.ok
      → start_runtime E reset_observer others r ≡ (start E (to_start E reset_observer r)).0
  unfolding start_runtime
  start_runtime_starts r st idle ok = ground (arith, configure_default r st idle)

  dec_ok : (result : ResultCode) → (result ≡ ResultCode.ok) ⊎ (result ≢ ResultCode.ok)
  dec_ok ResultCode.ok = inl refl
  dec_ok _ = inr (λ e. cc)

  start_runtime_refused :
      (r : Runtime E)
      → r.lifecycle ≢ LifecycleState.stopped
      → start_runtime E reset_observer others r ≡ r
  unfolding start_runtime
  start_runtime_refused r ne = ground arith

  -- What a restart makes of its stop: nothing if that is not complete; else the runtime is released,
  -- and only then the observer is reset and the start made, and a start that fails is stopped again.
  abbrev pub Restarts : Runtime E × ResultCode → Runtime E → Type 0
  Restarts (r1, result) r2 =
      let (begun, started) = start E (to_start E reset_observer r1) in
      ((r1.lifecycle ≢ LifecycleState.stopped) × (r2 ≡ r1))
      ⊎ ((r1.lifecycle ≡ LifecycleState.stopped)
          × Free r1.source
          × (r1.worker_active ≡ false)
          × (((started ≡ ResultCode.ok) × (r2 ≡ begun))
              ⊎ ((started ≢ ResultCode.ok) × (r2 ≡ (stop E others false begun).0))))

  start_runtime_stops :
      (r : Runtime E)
      → r.lifecycle ≡ LifecycleState.stopped
      → r.lifecycle_operation_active ≡ false
      → (start E (to_start E reset_observer r)).1 ≢ ResultCode.ok
      → start_runtime E reset_observer others r
        ≡ (stop E others false (start E (to_start E reset_observer r)).0).0
  unfolding start_runtime stop_runtime
  start_runtime_stops r st idle bad = ground (arith, configure_default r st idle)

  after_restart :
      (r1 : Runtime E) (result : ResultCode) (done : Bool)
      → Settles E (r1, done)
      → Restarts (r1, result) (restarted E reset_observer others (r1, done))
  after_restart r1 result done (c, inr (e, ne)) = rw e (inl (ne, refl))
  after_restart r1 result done (c, inl (e, st, free, off)) =
      rw e (elim (dec_ok (start E (to_start E reset_observer r1)).1) [
        | inl ok ↦ inr (st, free, off, inl (ok, start_runtime_starts r1 st c.idle ok))
        | inr bad ↦ inr (st, free, off, inr (bad, start_runtime_stops r1 st c.idle bad))
      ])

  -- The restart of the ReceiveOnlyRuntime sketch, of a consistent runtime and beside a worker that
  -- does only what a stop relies on: if its stop leaves the runtime not stopped, it goes no further,
  -- so that neither the observer is reset nor a start made; else the runtime is stopped, owns nothing
  -- and has no worker, and it is then that the observer is reset and the runtime started, with a stop
  -- of its own if that start fails. A start without a stop before it leaves a runtime that is not
  -- stopped as it is.
  pub restart_lem :
      (r : Runtime E)
      → IsWorkerLike E others
      → Consistent E r
      → Restarts (stop E others false r) (obey E reset_observer others restart_command r)
        × ((r.lifecycle ≡ LifecycleState.stopped) ⊎ (start_runtime E reset_observer others r ≡ r))
  unfolding obey
  restart_lem r l c =
      let (settles, same) = stop_checked-Settles E others r l c in
      let (r1, done) = stop_checked E others r in
      (
        unfold stop_checked in rw same (after_restart r1 (stop E others false r).1 done settles),
        elim (Bool-cases (is_stopped r.lifecycle)) [
          | inl st ↦ inl (ground arith)
          | inr running ↦ inr (start_runtime_refused r (λ e. ground arith))
        ],
      )
