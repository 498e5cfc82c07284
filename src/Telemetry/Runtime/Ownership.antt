-- ===== src/Telemetry/Runtime/Ownership.antt =====
-- Who owns the acquisition source: what the calls of
-- components/vehicle_telemetry/src/runtime.cpp make of it.
use esp32_vehicle_can_core.Prelude.{
  ℕ, ◌+◌, ◌≤◌, ◌≡◌, ◌≢◌, refl, ◌⊎◌, inl, inr, Bool, true, false, arith, u8, if◌then◌else◌,
}
use esp32_vehicle_can_core.VehicleCore.Health.{TransportHealth}
use esp32_vehicle_can_core.Telemetry.Types.{ResultCode, is_ok, LifecycleState}
use esp32_vehicle_can_core.Telemetry.Runtime.{
  Surroundings, no_owner, successful_start, partial_start, SourceState, Runtime, refresh_if_due,
  set_lifecycle_diagnostic, reset_cache,
}
use esp32_vehicle_can_core.Telemetry.Runtime.Cleanup.{
  source_stopped, partial_stopped, attempt_source_stop, attempt_partial_start_cleanup,
}
use esp32_vehicle_can_core.Telemetry.Runtime.Control.{end_cleanup}

-- Nothing is owned, and nothing is left over of an earlier run.
pub record Free (s : SourceState) : Type 0 where
  pub not_started : s.source_started ≡ false
  pub unowned : s.source_ownership ≡ no_owner
  pub not_called : s.source_stop_called ≡ false
  pub settled : s.source_stop_result ≡ ResultCode.ok

pub record RunOwned (s : SourceState) : Type 0 where
  pub started : s.source_started ≡ true
  pub owned : s.source_ownership ≡ successful_start

pub record PartOwned (s : SourceState) : Type 0 where
  pub started : s.source_started ≡ true
  pub owned : s.source_ownership ≡ partial_start
  pub pending : 2 ≤ s.partial_cleanup_attempts → s.source_stop_result ≢ ResultCode.ok

-- After a stop of a source: it answered that it is stopped and is owned no more; it failed and is
-- kept for a retry; or it failed and, with no retry, is given up.
abbrev pub AfterStop : SourceState → SourceState × ResultCode → Type 0
AfterStop s (s', r) =
    ((r ≡ ResultCode.ok) × Free s')
    ⊎ ((r ≢ ResultCode.ok)
        × (s.source_stop_retry_supported ≡ true)
        × (s'.source_stop_retry_supported ≡ true)
        × (s'.source_stop_called ≡ true)
        × RunOwned s')
    ⊎ ((r ≢ ResultCode.ok)
        × (s.source_stop_retry_supported ≡ false)
        × (s'.source_stop_retry_supported ≡ false)
        × Free s')

source_stopped-AfterStop :
    (result : ResultCode) (s : SourceState) → RunOwned s → AfterStop s (source_stopped result s)
unfolding source_stopped
source_stopped-AfterStop result s o = ground arith

-- After an attempt to clean up a partial start.
abbrev pub AfterCleanup : SourceState × ResultCode → Type 0
AfterCleanup (s', r) = ((r ≡ ResultCode.ok) × Free s') ⊎ ((r ≢ ResultCode.ok) × PartOwned s')

partial_stopped-AfterCleanup :
    (result : ResultCode) (s : SourceState)
    → s.source_started ≡ true
    → s.source_ownership ≡ partial_start
    → AfterCleanup (partial_stopped result s)
unfolding partial_stopped
partial_stopped-AfterCleanup result s st o = ground arith

module _ (E : Surroundings) where
  -- What reports leave alone.
  abbrev pub Kept : Runtime E → Runtime E → Type 0
  Kept r r' =
      (r'.source ≡ r.source)
      × (r'.lifecycle ≡ r.lifecycle)
      × (r'.lifecycle_operation_active ≡ r.lifecycle_operation_active)
      × (r'.worker_active ≡ r.worker_active)
      × (r'.stop_requested ≡ r.stop_requested)
      × (r'.config ≡ r.config)

  pub refresh_if_due-Kept :
      (now : ℕ) (force : Bool) (r : Runtime E) → Kept r (refresh_if_due E now force r)
  unfolding refresh_if_due
  refresh_if_due-Kept now force r = ground arith

  pub set_lifecycle_diagnostic-Kept :
      (l : LifecycleState) (t : TransportHealth) (r : Runtime E)
      → Kept r (set_lifecycle_diagnostic E l t r)
  unfolding set_lifecycle_diagnostic
  set_lifecycle_diagnostic-Kept l t r =
      let (w, now) = E.clock_now r.world in refresh_if_due-Kept now true (record r { world = w })

  -- The lifecycle with which a cleanup ends.
  abbrev pub Ended : ResultCode → Runtime E → Runtime E → Type 0
  Ended result r r' =
      (r'.source ≡ r.source)
      × (r'.lifecycle ≡ (if is_ok result then LifecycleState.stopped else LifecycleState.faulted))
      × (r'.lifecycle_operation_active ≡ false)
      × (r'.worker_active ≡ r.worker_active)
      × (r'.stop_requested ≡ r.stop_requested)
      × (r'.config ≡ r.config)

  pub end_cleanup-Ended :
      (result : ResultCode) (r : Runtime E) → Ended result r (end_cleanup E result r)
  unfolding end_cleanup reset_cache
  end_cleanup-Ended result r =
      let a =
        set_lifecycle_diagnostic-Kept LifecycleState.stopped TransportHealth.stopped
          (record r { lifecycle = LifecycleState.stopped }) in
      let b =
        set_lifecycle_diagnostic-Kept LifecycleState.faulted TransportHealth.faulted
          (record r { lifecycle = LifecycleState.faulted }) in
      ground (arith, a, b)

  pub attempt_source_stop-AfterStop :
      (r : Runtime E)
      → RunOwned r.source
      → (r.source.source_stop_called ≡ true → r.source.source_stop_retry_supported ≡ true)
      → let (r', result) = attempt_source_stop E r in
        AfterStop r.source (r'.source, result)
        × (r'.lifecycle ≡ r.lifecycle)
        × (r'.worker_active ≡ r.worker_active)
        × (r'.stop_requested ≡ r.stop_requested)
        × (r'.config ≡ r.config)
  unfolding attempt_source_stop
  attempt_source_stop-AfterStop r o c =
      let a = source_stopped-AfterStop (E.source_stop r.world).1 r.source o in
      let b = source_stopped-AfterStop (E.source_retry_stop r.world).1 r.source o in
      ground (arith, a, b)

  -- What an attempt leaves of everything but the source.
  abbrev pub Apart : Runtime E → Runtime E → Type 0
  Apart r r' =
      (r'.lifecycle ≡ r.lifecycle)
      × (r'.worker_active ≡ r.worker_active)
      × (r'.stop_requested ≡ r.stop_requested)
      × (r'.config ≡ r.config)

  pub attempt_partial-AfterCleanup :
      (r : Runtime E)
      → PartOwned r.source
      → let (r', result) = attempt_partial_start_cleanup E r in
        AfterCleanup (r'.source, result) × Apart r r'
  unfolding attempt_partial_start_cleanup
  attempt_partial-AfterCleanup r o =
      let s = r.source in
      let counted = record s { partial_cleanup_attempts = u8 (s.partial_cleanup_attempts + 1) } in
      let a = partial_stopped-AfterCleanup (E.source_stop r.world).1 counted o.started o.owned in
      let b =
        partial_stopped-AfterCleanup (E.source_retry_stop r.world).1 counted o.started o.owned in
      ground (arith, a, b)

  -- Between two operations: a stopped runtime owns no source and has no worker, nor has one that owns
  -- a part of a source a worker; the members
  -- that tell who owns the source agree, and a stop that was called is retried only if the source
  -- supports it.
  pub record Consistent (r : Runtime E) : Type 0 where
    pub idle : r.lifecycle_operation_active ≡ false
    pub source : Free r.source ⊎ RunOwned r.source ⊎ PartOwned r.source
    pub stopped : r.lifecycle ≡ LifecycleState.stopped → Free r.source × (r.worker_active ≡ false)
    pub no_worker : r.source_ownership ≡ partial_start → r.worker_active ≡ false
    pub retried :
        r.source_ownership ≡ successful_start
        → r.source_stop_called ≡ true
        → r.source_stop_retry_supported ≡ true

  attempt_nothing : (r : Runtime E) → Free r.source → attempt_source_stop E r ≡ (r, ResultCode.ok)
  unfolding attempt_source_stop
  attempt_nothing r f = ground arith

  -- What an attempt to stop a run leaves, also where an earlier stop has given the source up.
  pub attempt_source_stop_lem :
      (r : Runtime E)
      → Free r.source ⊎ RunOwned r.source
      → (r.source_ownership ≡ successful_start
          → r.source_stop_called ≡ true
          → r.source_stop_retry_supported ≡ true)
      → let (r', result) = attempt_source_stop E r in
        Apart r r'
        × (result ≡ ResultCode.ok → Free r'.source)
        × (Free r'.source ⊎ RunOwned r'.source)
        × (r'.source_ownership ≡ successful_start
            → r'.source_stop_called ≡ true
            → r'.source_stop_retry_supported ≡ true)
  attempt_source_stop_lem r (inl f) c =
      rw (attempt_nothing r f) ((refl, refl, refl, refl), λ e. f, inl f, c)
  attempt_source_stop_lem r (inr o) c =
      let a = attempt_source_stop-AfterStop r o (c o.owned) in ground (arith, a)

  attempt_calls :
      (r : Runtime E)
      → RunOwned r.source
      → r.source_stop_called ≡ false
      → (attempt_source_stop E r).0.world ≡ (E.source_stop r.world).0
  unfolding attempt_source_stop
  attempt_calls r o called = simp (o.owned, o.started, called)

  -- Without the source's support of a retry the source of a run is stopped once: the first attempt
  -- calls its stop, and another attempt, after the first one's success or failure, changes nothing
  -- and calls nothing.
  pub attempt_source_stop_once :
      (r : Runtime E)
      → RunOwned r.source
      → r.source_stop_called ≡ false
      → r.source_stop_retry_supported ≡ false
      → let r1 = (attempt_source_stop E r).0 in
        (r1.world ≡ (E.source_stop r.world).0) × (attempt_source_stop E r1 ≡ (r1, ResultCode.ok))
  attempt_source_stop_once r o called no_retry =
      let a = attempt_source_stop-AfterStop r o (λ e. absurd cc) in
      let free : Free (attempt_source_stop E r).0.source = ground (arith, a) in
      (attempt_calls r o called, attempt_nothing (attempt_source_stop E r).0 free)
