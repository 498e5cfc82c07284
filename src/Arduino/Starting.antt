-- ===== src/Arduino/Starting.antt =====
-- examples/arduino/RuntimeSyntheticHarness: how a case begins.
use mathlib.Core.Path.{subst}
use esp32_vehicle_can_core.Prelude.{sym, ℕ, refl, ◌≡◌, ◌⊎◌, inl, inr, Bool, true, false, arith}
use esp32_vehicle_can_core.Telemetry.Types.{is_ok, ResultCode, LifecycleState, is_config_valid}
use esp32_vehicle_can_core.Telemetry.Runtime.{Surroundings, Runtime, refresh_if_due, reset_cache}
use esp32_vehicle_can_core.Telemetry.Runtime.Control.{
  publish_run, run_source, start_source, start, configure,
}
use esp32_vehicle_can_core.Telemetry.Runtime.Ownership.{RunOwned, Consistent}
use esp32_vehicle_can_core.Telemetry.Runtime.Stopping.{IsWorkerLike}
use esp32_vehicle_can_core.Arduino.Control.{stop_checked}
use esp32_vehicle_can_core.Arduino.Settling.{stop_checked-Settles}
use esp32_vehicle_can_core.Arduino.Harness.{
  Board, Input, SyntheticSource, surroundings, source_start, observer_reset, prepare, case_config,
  begin_case,
}

start_reserves :
    (E : Surroundings) (r : Runtime E)
    → is_config_valid r.config ≡ true
    → r.lifecycle_operation_active ≡ false
    → r.lifecycle ≡ LifecycleState.stopped
    → start E r ≡ start_source E (record r { lifecycle_operation_active = true })
unfolding start
start_reserves E r valid idle st = simp (valid, idle, st)

module _ (P : Board) where
  abbrev E : Surroundings
  E = surroundings P

  -- The source as a case begins with it.
  abbrev pub case_source : Input → Bool → SyntheticSource
  case_source input stop_fault = record {
    input = input;
    fail_start = false;
    fail_stop_once = stop_fault;
    running = true;
    calls = 0;
    frame_count = 0;
    stops = 0;
    retries = 0;
  }

  -- A runtime that runs with fresh counters.
  abbrev pub BeginsClean : Input → Bool → Bool → Runtime (surroundings P) × Bool → Type 0
  BeginsClean input processor_fault stop_fault (r, ok) =
      (ok ≡ true)
      × (r.lifecycle ≡ LifecycleState.running)
      × RunOwned r.source
      × (r.world.source ≡ case_source input stop_fault)
      × (r.world.processor ≡ record { fail = processor_fault; processed = 0 })
      × (r.world.observer.completed ≡ 0)
      × (r.diagnostics.frames_processed ≡ 0)

  publish_run_lem :
      (r : Runtime E)
      → let r' = publish_run E r in
        (r'.world.source ≡ r.world.source)
        × (r'.world.processor ≡ r.world.processor)
        × (r'.world.observer ≡ r.world.observer)
        × RunOwned r'.source
        × (r'.lifecycle ≡ LifecycleState.running)
        × (r'.diagnostics.frames_processed ≡ 0)
  unfolding publish_run refresh_if_due
  publish_run_lem r = ground arith

  -- The source, the processor and the observer do as a case asks them to.
  abbrev Set : Input → Bool → Bool → Runtime E → Type 0
  Set input processor_fault stop_fault r =
      (r.world.source.input ≡ input)
      × (r.world.source.fail_start ≡ false)
      × (r.world.source.fail_stop_once ≡ stop_fault)
      × (r.world.processor.fail ≡ processor_fault)
      × (r.world.observer.completed ≡ 0)

  start_source_lem :
      (input : Input) (processor_fault stop_fault : Bool) (r : Runtime E)
      → Set input processor_fault stop_fault r
      → ((w : P.World) → (P.create_task w).1 ≡ true)
      → BeginsClean input processor_fault stop_fault
          (let (r', result) = start_source E r in (r', is_ok result))
  unfolding start_source run_source reset_cache source_start
  start_source_lem input processor_fault stop_fault r (i, s, f, p, o) creates =
      let r0 : Runtime E = reset_cache E r in
      let was = r0.source in
      let h = r.world in
      let proc = h.processor in
      let begun : Runtime E = record r0 {
        world = record h {
          source = case_source input stop_fault;
          processor = record proc { processed = 0 };
        };
        source = record was { source_stop_retry_supported = true };
      } in
      let published = publish_run_lem begun in
      let created = creates (publish_run E begun).world.world in ground (arith, published, created)

  start_lem :
      (input : Input) (processor_fault stop_fault : Bool) (r : Runtime E)
      → Set input processor_fault stop_fault r
      → r.config ≡ case_config P
      → r.lifecycle ≡ LifecycleState.stopped
      → r.lifecycle_operation_active ≡ false
      → ((w : P.World) → (P.create_task w).1 ≡ true)
      → BeginsClean input processor_fault stop_fault
          (let (r', result) = start E r in (r', is_ok result))
  unfolding is_config_valid
  start_lem input processor_fault stop_fault r set config st idle creates =
      let reserved : Runtime E = record r { lifecycle_operation_active = true } in
      let begins = start_source_lem input processor_fault stop_fault reserved set creates in
      let valid : is_config_valid r.config ≡ true = rw config refl in
      subst
        (λ (s : Runtime E × ResultCode).
          BeginsClean input processor_fault stop_fault (s.0, is_ok s.1))
        (sym (start_reserves (surroundings P) r valid idle st)) begins

  module _ (others : Runtime (surroundings P) → Runtime (surroundings P)) where
    -- What `begin_case` starts.
    abbrev to_begin : Input → ℕ → Bool → Bool → Runtime E → Runtime E
    to_begin input observer_delay processor_fault stop_fault r = record r {
      config = case_config P;
      world = prepare P input observer_delay processor_fault stop_fault r.world;
    }

    configure_case :
        (r : Runtime E)
        → r.lifecycle ≡ LifecycleState.stopped
        → r.lifecycle_operation_active ≡ false
        → configure E (case_config P) r ≡ (record r { config = case_config P }, ResultCode.ok)
    unfolding configure is_config_valid
    configure_case r st idle = simp (st, idle)

    to_begin-Set :
        (input : Input) (observer_delay : ℕ) (processor_fault stop_fault : Bool) (r : Runtime E)
        → Set input processor_fault stop_fault
            (to_begin input observer_delay processor_fault stop_fault r)
    unfolding prepare observer_reset
    to_begin-Set input observer_delay processor_fault stop_fault r = (refl, refl, refl, refl, refl)

    -- `begin_case` is answered no with the borrowed objects as the stop left them, or it starts.
    begin_case_is :
        (input : Input) (observer_delay : ℕ) (processor_fault stop_fault : Bool) (r r1 : Runtime E)
        → (stop_checked E others r ≡ (r1, true))
        → r1.lifecycle ≡ LifecycleState.stopped
        → r1.lifecycle_operation_active ≡ false
        → begin_case P others input observer_delay processor_fault stop_fault r ≡ (
            let (r', result) =
              start E (to_begin input observer_delay processor_fault stop_fault r1) in
            (r', is_ok result))
    unfolding begin_case
    begin_case_is input observer_delay processor_fault stop_fault r r1 done st idle =
        let set : Runtime E = record r1 {
          world = prepare P input observer_delay processor_fault stop_fault r1.world;
        } in
        simp (done, configure_case set st idle)

    -- `begin_case` of the harness sketch on a consistent runtime, beside a worker that does only what
    -- a stop relies on: if its stop is not complete, it touches nothing that the runtime borrows and
    -- is answered no; if it is and the worker task can be created, the case runs with the input and
    -- the faults that it asks for, every count of the source and of the processor at 0, and neither
    -- the observer nor the diagnostics having a frame.
    pub begin_case_lem :
        (input : Input) (observer_delay : ℕ) (processor_fault stop_fault : Bool)
        (r : Runtime (surroundings P))
        → IsWorkerLike (surroundings P) others
        → Consistent (surroundings P) r
        → ((w : P.World) → (P.create_task w).1 ≡ true)
        → let (stopped, done) = stop_checked (surroundings P) others r in
          let begun = begin_case P others input observer_delay processor_fault stop_fault r in
          ((done ≡ false) × (begun ≡ (stopped, false)))
          ⊎ ((done ≡ true) × BeginsClean input processor_fault stop_fault begun)
    begin_case_lem input observer_delay processor_fault stop_fault r l c creates =
        let (settles, same) = stop_checked-Settles E others r l c in
        let r1 = (stop_checked E others r).0 in
        elim settles.1 [
          | inl (done, st, free, off) ↦
              let started : BeginsClean input processor_fault stop_fault
                  (begin_case P others input observer_delay processor_fault stop_fault r) =
                rw
                  (begin_case_is input observer_delay processor_fault stop_fault r r1 (rw done refl)
                    st settles.0.idle)
                  (start_lem input processor_fault stop_fault
                    (to_begin input observer_delay processor_fault stop_fault r1)
                    (to_begin-Set input observer_delay processor_fault stop_fault r1) refl st
                    settles.0.idle creates) in
              inr (done, started)
          | inr (late, running) ↦ inl (late, (unfold begin_case in simp late))
        ]
