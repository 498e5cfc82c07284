-- ===== src/Baseline/Fixture/Receiving.antt =====
-- What Source::receive of tools/runtime_baseline/fixture.hpp does to the queue and the counters.
use esp32_vehicle_can_core.Prelude.{
  ℕ, ◌+◌, ◌≡◌, refl, Option, none, some, arith, if_elim, if◌then◌else◌, ◌∙◌, leb, ◌==◌, u64,
}
use esp32_vehicle_can_core.VehicleCore.Frame.{RawCanFrame}
use esp32_vehicle_can_core.Telemetry.Types.{ReceiveStatus}
use esp32_vehicle_can_core.Telemetry.Runtime.Loop.{is_frame}
use esp32_vehicle_can_core.Baseline.Queue.{Queue, pop}
use esp32_vehicle_can_core.Baseline.Queue.Invariant.{
  IsValid, add-IsValid, pop-IsValid, consumed-add,
}
use esp32_vehicle_can_core.Baseline.Metrics.{Metrics, begin_segment, checkpoint}
use esp32_vehicle_can_core.Baseline.Fixture.{Platform, Scenario, SourceState, Fixture, read_now}
use esp32_vehicle_can_core.Baseline.Fixture.Source.{
  arrive, take_next, wait_for_frames, waited, delivered, finished, receive_impl, receive,
}

-- The counters of a fixture that say what became of the frames.
abbrev pub Same : Metrics → Metrics → Type 0
Same m m' = (m'.processed ≡ m.processed) × (m'.ignored ≡ m.ignored) × (m'.malformed ≡ m.malformed)

abbrev Holds : ℕ → SourceState → Type 0
Holds n s = IsValid s.queue × (s.queue.consumed ≡ n)

abbrev after_taking : Option ℕ → ℕ → ℕ
after_taking none n = n
after_taking (some _) n = u64 (n + 1)

consumed-pop : (q : Queue) → (pop q).0.consumed ≡ after_taking (pop q).1 q.consumed
unfolding pop
consumed-pop q = ground arith

arrive-Holds :
    (now : ℕ) (config : Scenario) (s : SourceState)
    → IsValid s.queue
    → Holds s.queue.consumed (arrive now config s)
unfolding arrive
arrive-Holds now config s v =
    if_elim (Holds s.queue.consumed) (config.arrival_interval_us == 0)
      (if_elim (Holds s.queue.consumed) (s.queue.size == 0)
        (add-IsValid _ s.queue v, consumed-add config.arrival_batch s.queue) (v, refl))
      (add-IsValid _ s.queue v, consumed-add _ s.queue)

take_next-Holds :
    (now : ℕ) (config : Scenario) (s : SourceState)
    → IsValid s.queue
    → let (s', sequence) = take_next now config s in
      Holds (after_taking sequence s.queue.consumed) s'
unfolding take_next
take_next-Holds now config s v =
    let (v1, same) = arrive-Holds now config s v in
    let q : Queue = (arrive now config s).queue in
    let e : (pop q).0.consumed ≡ after_taking (pop q).1 s.queue.consumed =
      consumed-pop q ∙ (λ i. after_taking (pop q).1 (same i)) in
    if_elim (λ (p : SourceState × Option ℕ). Holds (after_taking p.1 s.queue.consumed) p.0)
      (leb config.frame_limit s.queue.consumed) (v, refl) (pop-IsValid q v1, e)

module _ (P : Platform) where
  -- `receive` counts no frame as handled, keeps the queue well formed, and takes one number from the
  -- queue exactly when it delivers a frame.
  abbrev Receives : ℕ → Metrics → Fixture P × ReceiveStatus × RawCanFrame → Type 0
  Receives n m (f, status, frame) =
      Same m f.metrics
      × IsValid f.source.queue
      × (f.source.queue.consumed ≡ (if is_frame status then u64 (n + 1) else n))

  begin_segment-Same : (now : ℕ) (m : Metrics) → Same m (begin_segment now m)
  unfolding begin_segment
  begin_segment-Same now m = ground arith

  wait_for_frames-Receives :
      (timeout_ms : ℕ) (f : Fixture P)
      → IsValid f.source.queue
      → Receives f.source.queue.consumed f.metrics (waited P (wait_for_frames P timeout_ms f))
  unfolding wait_for_frames begin_segment checkpoint
  wait_for_frames-Receives timeout_ms f v = ground arith

  delivered-Receives :
      (timeout_ms now n : ℕ) (m : Metrics) (f : Fixture P) (sequence : Option ℕ)
      → Same m f.metrics
      → Holds (after_taking sequence n) f.source
      → Receives n m (delivered P timeout_ms now f sequence)
  delivered-Receives timeout_ms now n m f none same (v, e) =
      ground (arith, wait_for_frames-Receives timeout_ms f v)
  delivered-Receives timeout_ms now n m f (some sequence) same (v, e) = (same, v, e)

  receive_impl-Receives :
      (timeout_ms : ℕ) (m : Metrics) (f : Fixture P)
      → IsValid f.source.queue
      → Same m f.metrics
      → Receives f.source.queue.consumed m (receive_impl P timeout_ms f)
  unfolding receive_impl
  receive_impl-Receives timeout_ms m f v same =
      let (f1, now) = read_now P f in
      let (s, sequence) = take_next now f.config f.source in
      if_elim (Receives f.source.queue.consumed m) f.source.cancelled (same, v, refl)
        (delivered-Receives timeout_ms now f.source.queue.consumed m (record f1 { source = s })
          sequence same (take_next-Holds now f.config f.source v))

  finished-Receives :
      (started n : ℕ) (m : Metrics) (f : Fixture P × ReceiveStatus × RawCanFrame)
      → Receives n m f
      → Receives n m (finished P started f)
  finished-Receives started n m (f, status, frame) h =
      if_elim (λ (g : Fixture P). Receives n m (g, status, frame)) f.metrics.timing h h

  pub receive-Receives :
      (timeout_ms : ℕ) (f : Fixture P)
      → IsValid f.source.queue
      → Receives f.source.queue.consumed f.metrics (receive P timeout_ms f)
  unfolding receive
  receive-Receives timeout_ms f v =
      let (f1, started) = read_now P f in
      let m : Metrics = begin_segment started f.metrics in
      finished-Receives started f.source.queue.consumed f.metrics
        (receive_impl P timeout_ms (record f1 { metrics = m }))
        (receive_impl-Receives timeout_ms f.metrics (record f1 { metrics = m }) v
          (begin_segment-Same started f.metrics))
