-- ===== src/Baseline/Fixture/Running.antt =====
-- A run of the telemetry runtime over tools/runtime_baseline/fixture.hpp, from its start to the end of
-- its worker.
use esp32_vehicle_can_core.Prelude.{ℕ, suc, ◌+◌, ◌≡◌, ◌⊎◌, inl, inr, true, false, some, arith, u64}
use esp32_vehicle_can_core.Telemetry.Types.{ResultCode}
use esp32_vehicle_can_core.Telemetry.Runtime.{Runtime, refresh_if_due, reset_cache}
use esp32_vehicle_can_core.Telemetry.Runtime.Control
use esp32_vehicle_can_core.Telemetry.Runtime.Control.{
  start_source, run_source, publish_run, lifecycle_result,
}
use esp32_vehicle_can_core.Telemetry.Runtime.Loop.{run_loop}
use esp32_vehicle_can_core.Telemetry.Runtime.Looping.{run_loop_keep}
use esp32_vehicle_can_core.Telemetry.Runtime.Reporting.{run_loop_ends}
use esp32_vehicle_can_core.Baseline.Queue.{empty_queue}
use esp32_vehicle_can_core.Baseline.Queue.Invariant.{
  empty_queue-IsValid, IsValid, add-IsValid, consumed-add,
}
use esp32_vehicle_can_core.Baseline.Metrics.{Metrics}
use esp32_vehicle_can_core.Baseline.Fixture.{Platform, Fixture}
use esp32_vehicle_can_core.Baseline.Fixture.Source
use esp32_vehicle_can_core.Baseline.Fixture.Processing.{reset}
use esp32_vehicle_can_core.Baseline.Fixture.Composition.{Host, surroundings, Agrees}
use esp32_vehicle_can_core.Baseline.Fixture.Conservation.{E, Tally, LeavesCounts, loop_invariant}

-- No frame has been counted.
abbrev pub IsFresh : Metrics → Type 0
IsFresh m = (m.processed ≡ 0) × (m.ignored ≡ 0) × (m.malformed ≡ 0)

module _ (P : Platform) (H : Host P) where
  -- A source that has started, with no frame taken.
  abbrev Begun : Fixture P → Type 0
  Begun f = IsFresh f.metrics × IsValid f.source.queue × (f.source.queue.consumed ≡ 0)

  start-Begun : (f : Fixture P) → IsFresh f.metrics → Begun (Source.start P f).0
  unfolding Source.start
  start-Begun f fresh =
      (fresh, add-IsValid _ empty_queue empty_queue-IsValid, consumed-add _ empty_queue)

  publish_run-Tally : (r : Runtime (E P H)) → Begun r.world → Tally P H 0 (publish_run (E P H) r)
  unfolding publish_run refresh_if_due
  publish_run-Tally r h = ground arith

  -- The start of a runtime whose fixture has counted no frame yet, if it succeeds.
  started-Tally :
      (r : Runtime (E P H))
      → IsFresh r.world.metrics
      → (Control.start (E P H) r).1 ≡ ResultCode.ok
      → Tally P H 0 (Control.start (E P H) r).0
  unfolding Control.start start_source run_source reset_cache reset lifecycle_result
  started-Tally r fresh ok =
      let r1 : Runtime (E P H) =
        reset_cache (E P H) (record r { lifecycle_operation_active = true }) in
      let s = r1.source in
      let r2 : Runtime (E P H) = record r1 {
        world = (Source.start P (reset P r.world)).0;
        source = record s { source_stop_retry_supported = false };
      } in
      let published = publish_run-Tally r2 (start-Begun (reset P r.world) fresh) in
      ground (arith, published)

  -- Every number generated is accounted for.
  abbrev pub Accounts : ℕ → Runtime (surroundings P H) → Type 0
  Accounts open_frames r =
      let m = r.world.metrics in
      let q = r.world.source.queue in
      Agrees r.diagnostics m
      × (q.generated
          ≡ u64 (m.processed + m.ignored + m.malformed + open_frames + q.dropped + q.size))

  Tally-Accounts : (n : ℕ) (r : Runtime (E P H)) → Tally P H n r → Accounts n r
  Tally-Accounts n r (a, v, e) = (a, omega (arith, v.balance))

  -- A run of the telemetry runtime over the synthetic source, processor and observer: if its start
  -- succeeds with a fixture that has counted no frame yet, and another task, which leaves the
  -- counters and the queue alone, requests a stop in the last round looked at, then the worker ends.
  -- At its end the runtime and the processor have counted alike, and every number that the source
  -- generated is a frame that was processed, ignored or malformed, was dropped, is still in the
  -- queue, or is the one frame that the stop found on its way.
  pub run_conserves :
      (others : ℕ → Runtime (surroundings P H) → Runtime (surroundings P H)) (fuel : ℕ)
      (r : Runtime (surroundings P H))
      → IsFresh r.world.metrics
      → (Control.start (surroundings P H) r).1 ≡ ResultCode.ok
      → ((n : ℕ) → LeavesCounts P H (others n))
      → ((r' : Runtime (surroundings P H)) → (others 0 r').stop_requested ≡ true)
      → (r' : Runtime (surroundings P H)) × (run_loop
            (surroundings P H)
            others
            (suc fuel)
            (Control.start (surroundings P H) r).0
          ≡ some r')
        × (Accounts 0 r' ⊎ Accounts 1 r')
  run_conserves others fuel r fresh ok leaves asked =
      let r1 : Runtime (E P H) = (Control.start (E P H) r).0 in
      let (r', e) = run_loop_ends (E P H) others fuel r1 asked in
      let kept =
        run_loop_keep (E P H) others _ _ (loop_invariant P H others leaves) (suc fuel) r1
          (started-Tally r fresh ok) e in
      (
        r',
        e,
        elim kept [
          | inl a ↦ inl (Tally-Accounts 0 r' a)
          | inr (inl a) ↦ inl (Tally-Accounts 0 r' a)
          | inr (inr a) ↦ inr (Tally-Accounts 1 r' a)
        ],
      )
