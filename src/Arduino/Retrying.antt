-- ===== src/Arduino/Retrying.antt =====
-- examples/arduino/RuntimeSyntheticHarness: a stop that its source fails, and the retry of it.
use esp32_vehicle_can_core.Prelude.{
  ℕ, zero, suc, ◌+◌, ◌≡◌, ◌≢◌, refl, inl, inr, true, false, arith, u32, ◌∙◌, if_elim,
}
use esp32_vehicle_can_core.VehicleCore.Health.{TransportHealth}
use esp32_vehicle_can_core.Telemetry.Types.{ResultCode, LifecycleState, is_config_valid}
use esp32_vehicle_can_core.Telemetry.Runtime.{
  Surroundings, Runtime, refresh_if_due, set_lifecycle_diagnostic, reset_cache, request_stop,
}
use esp32_vehicle_can_core.Telemetry.Runtime.Cleanup.{source_stopped, attempt_source_stop}
use esp32_vehicle_can_core.Telemetry.Runtime.Control.{
  lifecycle_result, end_cleanup, begin_stopping, wait_worker, finish_stop, stop_run, start, stop,
}
use esp32_vehicle_can_core.Telemetry.Runtime.Ownership.{
  RunOwned, Consistent, set_lifecycle_diagnostic-Kept, end_cleanup-Ended,
}
use esp32_vehicle_can_core.Telemetry.Runtime.Completing.{wait_ends}
use esp32_vehicle_can_core.Telemetry.Runtime.Stopping.{stop_cases}
use esp32_vehicle_can_core.Telemetry.Runtime.Worker.{worker_step, worker_step-IsWorkerLike}
use esp32_vehicle_can_core.Arduino.Control.{stop_checked}
use esp32_vehicle_can_core.Arduino.Settling.{stop_checked-Settles}
use esp32_vehicle_can_core.Arduino.Harness.{Board, surroundings, source_stop, source_retry_stop}

module _ (P : Board) where
  abbrev E : Surroundings
  E = surroundings P

  -- Reports leave the objects that the runtime borrows alone.
  abbrev SameSource : Runtime E → Runtime E → Type 0
  SameSource r r' = r'.world.source ≡ r.world.source

  set_lifecycle_diagnostic-SameSource :
      (l : LifecycleState) (t : TransportHealth) (r : Runtime E)
      → SameSource r (set_lifecycle_diagnostic E l t r)
  unfolding set_lifecycle_diagnostic refresh_if_due
  set_lifecycle_diagnostic-SameSource l t r = ground arith

  -- What a stop has done before it asks the source.
  abbrev Asked : Runtime E → Runtime E → Type 0
  Asked r r' =
      (r'.source ≡ r.source)
      × (r'.lifecycle ≡ LifecycleState.stopping)
      × (r'.stop_requested ≡ true)
      × (r'.config ≡ r.config)
      × SameSource r r'

  asked_lem : (r : Runtime E) → Asked r (request_stop E (begin_stopping E r))
  unfolding request_stop begin_stopping
  asked_lem r =
      let r0 : Runtime E = record r {
        lifecycle_operation_active = true;
        lifecycle = LifecycleState.stopping;
      } in
      let k = set_lifecycle_diagnostic-Kept E LifecycleState.stopping TransportHealth.stopped r0 in
      let s =
        set_lifecycle_diagnostic-SameSource LifecycleState.stopping TransportHealth.stopped r0 in
      ground (arith, k, s)

  -- The first stop, whose source answers that time is over.
  attempt_times_out :
      (r : Runtime E)
      → RunOwned r.source
      → r.source_stop_called ≡ false
      → r.source_stop_retry_supported ≡ true
      → r.world.source.fail_stop_once ≡ true
      → let (r', result) = attempt_source_stop E r in
        (result ≡ ResultCode.timeout)
        × RunOwned r'.source
        × (r'.source_stop_called ≡ true)
        × (r'.source_stop_retry_supported ≡ true)
        × (r'.lifecycle ≡ r.lifecycle)
        × (r'.config ≡ r.config)
        × (r'.world.source.stops ≡ u32 (r.world.source.stops + 1))
        × (r'.world.source.retries ≡ r.world.source.retries)
  unfolding attempt_source_stop source_stopped source_stop
  attempt_times_out r o c s f = ground arith

  -- The retry, whose source answers that it is stopped.
  attempt_retries :
      (r : Runtime E)
      → RunOwned r.source
      → r.source_stop_called ≡ true
      → r.source_stop_retry_supported ≡ true
      → let (r', result) = attempt_source_stop E r in
        (result ≡ ResultCode.ok)
        × (r'.stop_requested ≡ r.stop_requested)
        × (r'.world.source.stops ≡ r.world.source.stops)
        × (r'.world.source.retries ≡ u32 (r.world.source.retries + 1))
  unfolding attempt_source_stop source_stopped source_retry_stop
  attempt_retries r o c s = ground arith

  -- What a stop that its source fails leaves.
  abbrev Failed : Runtime E → Runtime E × ResultCode → Type 0
  Failed r (r', result) =
      (result ≡ ResultCode.timeout)
      × (r'.lifecycle ≡ LifecycleState.stopping)
      × (r'.lifecycle_operation_active ≡ false)
      × RunOwned r'.source
      × (r'.source_stop_called ≡ true)
      × (r'.source_stop_retry_supported ≡ true)
      × (r'.config ≡ r.config)
      × (r'.world.source.stops ≡ u32 (r.world.source.stops + 1))
      × (r'.world.source.retries ≡ r.world.source.retries)

  run_fails :
      (r : Runtime E)
      → RunOwned r.source
      → r.source_stop_called ≡ false
      → r.source_stop_retry_supported ≡ true
      → r.world.source.fail_stop_once ≡ true
      → Failed r (stop_run E (worker_step E) r)
  unfolding stop_run finish_stop
  run_fails r o c s f =
      let a = asked_lem r in
      let asked = request_stop E (begin_stopping E r) in
      let owned : RunOwned asked.source = rw (a.0) o in
      let t =
        attempt_times_out asked owned (ground (arith, a, c)) (ground (arith, a, s))
          (ground (arith, a, f)) in
      ground (arith, a, t)

  -- The rounds of a worker that was asked to stop leave the borrowed objects alone.
  wait-SameSource :
      (n : ℕ) (r : Runtime E)
      → r.stop_requested ≡ true
      → SameSource r (wait_worker E (worker_step E) n r)
  unfolding wait_worker
  wait-SameSource zero r asked = refl
  wait-SameSource (suc n) r asked =
      let next = worker_step E r in
      let kept = wait-SameSource n next (ground arith) in
      let same : SameSource r next = ground arith in
      if_elim (λ r'. SameSource r r') r.worker_active (kept ∙ same) refl

  end_cleanup-SameSource :
      (result : ResultCode) (r : Runtime E) → SameSource r (end_cleanup E result r)
  unfolding end_cleanup reset_cache
  end_cleanup-SameSource result r =
      let a =
        set_lifecycle_diagnostic-SameSource LifecycleState.stopped TransportHealth.stopped
          (record r { lifecycle = LifecycleState.stopped }) in
      let b =
        set_lifecycle_diagnostic-SameSource LifecycleState.faulted TransportHealth.faulted
          (record r { lifecycle = LifecycleState.faulted }) in
      ground (arith, a, b)

  -- A stop that succeeds.
  abbrev Done : Runtime E → Runtime E × ResultCode → Type 0
  Done r (r', result) =
      (result ≡ ResultCode.ok) × (r'.lifecycle ≡ LifecycleState.stopped) × SameSource r r'

  finish-Done :
      (r : Runtime E)
      → r.stop_requested ≡ true
      → Done r (finish_stop E (worker_step E) ResultCode.ok r)
  unfolding finish_stop reset_cache
  finish-Done r asked =
      let waited = wait_worker E (worker_step E) 1000 r in
      let off = wait_ends E 999 r asked in
      let kept = wait-SameSource 1000 r asked in
      let same = end_cleanup-SameSource ResultCode.ok waited in
      let ended = end_cleanup-Ended E ResultCode.ok waited in ground (arith, off, kept, same, ended)

  run_retries :
      (r : Runtime E)
      → RunOwned r.source
      → r.source_stop_called ≡ true
      → r.source_stop_retry_supported ≡ true
      → let (r', result) = stop_run E (worker_step E) r in
        (result ≡ ResultCode.ok)
        × (r'.lifecycle ≡ LifecycleState.stopped)
        × (r'.world.source.stops ≡ r.world.source.stops)
        × (r'.world.source.retries ≡ u32 (r.world.source.retries + 1))
  unfolding stop_run
  run_retries r o c s =
      let a = asked_lem r in
      let asked = request_stop E (begin_stopping E r) in
      let owned : RunOwned asked.source = rw (a.0) o in
      let (ok, still, stops, retries) =
        attempt_retries asked owned (ground (arith, a, c)) (ground (arith, a, s)) in
      let d = finish-Done (attempt_source_stop E asked).0 (ground (arith, still, a)) in
      rw ok (ground (arith, a, stops, retries, d))

  -- A stop of a run is carried out by `stop_run`.
  stop_run_of :
      (r : Runtime E)
      → Consistent E r
      → RunOwned r.source
      → r.lifecycle ≢ LifecycleState.stopped
      → stop E (worker_step E) false r ≡ stop_run E (worker_step E) r
  stop_run_of r c o ne = elim (stop_cases E (worker_step E) r c) [
    | inl (st, _) ↦ absurd (ne st)
    | inr (inl (_, part, _)) ↦ let clash = part.owned in let owned = o.owned in absurd cc
    | inr (inr (_, _, e)) ↦ e
  ]

  after_stop-Consistent :
      (r : Runtime E) → Consistent E r → Consistent E (stop E (worker_step E) false r).0
  unfolding stop_checked
  after_stop-Consistent r c =
      (stop_checked-Settles E (worker_step E) r (worker_step-IsWorkerLike E) c).0.0

  start_refused_lem :
      (r : Runtime E)
      → is_config_valid r.config ≡ true
      → r.lifecycle_operation_active ≡ false
      → r.lifecycle ≡ LifecycleState.stopping
      → start E r ≡ (r, ResultCode.stopping)
  unfolding start lifecycle_result
  start_refused_lem r valid idle st = simp (valid, idle, st)

  -- What the retry leaves, as the sketch counts since before the first stop.
  abbrev Retried : Runtime E → Runtime E × ResultCode → Type 0
  Retried r (r', result) =
      (result ≡ ResultCode.ok)
      × (r'.lifecycle ≡ LifecycleState.stopped)
      × (r'.world.source.stops ≡ u32 (r.world.source.stops + 1))
      × (r'.world.source.retries ≡ u32 (r.world.source.retries + 1))

  -- In the sketch's case of a source whose stop fails once, beside a worker whose receive and
  -- callbacks return within a delay of the stop: from a consistent runtime that is not
  -- stopped, owns a run that it was not asked to stop before, with the source's support of a retry
  -- noted, and has a valid configuration, `stop` times out with the runtime stopping and the run
  -- still owned, a start is then refused and changes nothing, and the next `stop_checked` succeeds;
  -- the source has by then counted one more stop and one more retry.
  pub failed_stop_retries :
      (r : Runtime E)
      → Consistent E r
      → RunOwned r.source
      → r.lifecycle ≢ LifecycleState.stopped
      → r.source_stop_called ≡ false
      → r.source_stop_retry_supported ≡ true
      → is_config_valid r.config ≡ true
      → r.world.source.fail_stop_once ≡ true
      → let (r1, result) = stop E (worker_step E) false r in
        let (r2, done) = stop_checked E (worker_step E) r1 in
        ((result ≡ ResultCode.timeout)
          × (r1.lifecycle ≡ LifecycleState.stopping)
          × RunOwned r1.source
          × (start E r1 ≡ (r1, ResultCode.stopping)))
        × (done ≡ true)
        × (r2.world.source.stops ≡ u32 (r.world.source.stops + 1))
        × (r2.world.source.retries ≡ u32 (r.world.source.retries + 1))
  unfolding stop_checked
  failed_stop_retries r c o ne once retry valid fails =
      let first = stop_run_of r c o ne in
      let f : Failed r (stop E (worker_step E) false r) =
        rw first (run_fails r o once retry fails) in
      let r1 = (stop E (worker_step E) false r).0 in
      let (late, st, idle, owned, called, supported, same, stops, retries) = f in
      let again = stop_run_of r1 (after_stop-Consistent r c) owned (λ e. ground arith) in
      let refused = start_refused_lem r1 (ground arith) idle st in
      let d = run_retries r1 owned called supported in
      let second : Retried r (stop E (worker_step E) false r1) =
        rw again (ground (arith, d, stops, retries)) in
      ((late, st, owned, refused), ground (arith, second), second.2, second.3)
