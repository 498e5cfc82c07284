-- ===== src/Baseline/Fixture/Source.antt =====
-- tools/runtime_baseline/fixture.hpp: Source, which generates sequence numbers on a schedule and
-- hands them out as frames.
use esp32_vehicle_can_core.Prelude.{
  ℕ, ◌+◌, ◌*◌, ◌/◌, ◌%◌, true, false, ◌&&◌, ◌||◌, Option, none, some, leb, ◌==◌, if◌then◌else◌, u32,
  u64, sub64,
}
use esp32_vehicle_can_core.VehicleCore.Frame.{RawCanFrame}
use esp32_vehicle_can_core.CanBus.Ring.{no_frame}
use esp32_vehicle_can_core.Telemetry.Types.{ResultCode, ReceiveStatus, AcquisitionStatistics}
use esp32_vehicle_can_core.Telemetry.Runtime.{no_statistics}
use esp32_vehicle_can_core.Baseline.Queue.{empty_queue, min, add, pop}
use esp32_vehicle_can_core.Baseline.Metrics.{add_cost, begin_segment, checkpoint}
use esp32_vehicle_can_core.Baseline.Fixture.{Platform, Scenario, SourceState, Fixture, read_now}

abbrev pub publish_statistics : SourceState → SourceState
publish_statistics s = record s { generated = s.queue.generated; dropped = s.queue.dropped }

-- What has arrived by `now`. With no interval a batch arrives whenever the queue is empty.
unfoldable pub arrive : ℕ → Scenario → SourceState → SourceState
arrive now config s =
    let batches = sub64 now s.arrivals_at_us / config.arrival_interval_us in
    if config.arrival_interval_us == 0
    then (if s.queue.size == 0 then record s { queue = add config.arrival_batch s.queue } else s)
    else record s {
      queue = add (u64 (batches * config.arrival_batch)) s.queue;
      arrivals_at_us = u64 (s.arrivals_at_us + u64 (batches * config.arrival_interval_us));
    }

unfoldable pub synthetic_frame : Scenario → ℕ → ℕ → RawCanFrame
synthetic_frame config now sequence = record no_frame {
  identifier = u32 (sequence % 3);
  timestamp_us = now;
  dlc = if config.mixed && u32 (sequence % 3) == 2 then 9 else 1;
}

-- Whether a number may be taken, and the source with what arrived by then.
unfoldable pub take_next : ℕ → Scenario → SourceState → SourceState × Option ℕ
unfolding arrive
take_next now config s =
    let s1 = publish_statistics (arrive now config s) in
    let (q, sequence) = pop s1.queue in
    if leb config.frame_limit s.queue.consumed
    then (s, none)
    else (record s1 { queue = q }, sequence)

module _ (P : Platform) where
  unfoldable pub start : Fixture P → Fixture P × ResultCode
  start f =
      let (f1, now) = read_now P f in
      (
        record f1 {
          source = publish_statistics (record {
            queue = add f.config.initial_frames empty_queue;
            cancelled = false;
            generated = 0;
            dropped = 0;
            arrivals_at_us = now;
          });
        },
        ResultCode.ok,
      )

  unfoldable pub stop : Fixture P → Fixture P × ResultCode
  stop f =
      let s = f.source in
      (record f { world = P.wake f.world; source = record s { cancelled = true } }, ResultCode.ok)

  -- The wait at the end of `receive_impl`.
  unfoldable pub wait_for_frames : ℕ → Fixture P → Fixture P × ReceiveStatus
  wait_for_frames timeout_ms f =
      let (f1, before_wait) = read_now P f in
      let s = f1.source in
      let (w, stopped) = P.wait (min (u32 (timeout_ms * 1000)) 1000) s.cancelled f1.world in
      let m = checkpoint before_wait f1.metrics in
      let cancelled = s.cancelled || stopped in
      let (f2, after_wait) =
        read_now P (record f1 { world = w; source = record s { cancelled = cancelled } }) in
      let m1 = record m {
        source_wait_cost =
            if m.timing
            then add_cost (sub64 after_wait before_wait) m.source_wait_cost
            else m.source_wait_cost;
      } in
      (
        record f2 { metrics = begin_segment after_wait m1 },
        if cancelled then ReceiveStatus.not_started else ReceiveStatus.timeout,
      )

  abbrev pub waited : Fixture P × ReceiveStatus → Fixture P × ReceiveStatus × RawCanFrame
  waited (f, status) = (f, status, no_frame)

  abbrev pub delivered : ℕ → ℕ → Fixture P → Option ℕ → Fixture P × ReceiveStatus × RawCanFrame
  delivered timeout_ms now f none = waited (wait_for_frames timeout_ms f)
  delivered timeout_ms now f (some sequence) =
      (f, ReceiveStatus.frame, synthetic_frame f.config now sequence)

  -- The frame is the caller's own, `RawCanFrame{}`, unless one is delivered.
  unfoldable pub receive_impl : ℕ → Fixture P → Fixture P × ReceiveStatus × RawCanFrame
  receive_impl timeout_ms f =
      let (f1, now) = read_now P f in
      let (s, sequence) = take_next now f1.config f1.source in
      if f.source.cancelled
      then (f, ReceiveStatus.not_started, no_frame)
      else delivered timeout_ms now (record f1 { source = s }) sequence

  abbrev pub finished :
      ℕ → Fixture P × ReceiveStatus × RawCanFrame → Fixture P × ReceiveStatus × RawCanFrame
  finished started (f, status, frame) =
      let (f1, now) = read_now P f in
      let m = f1.metrics in
      (
        if f.metrics.timing
            then record f1 {
              metrics = record m { receive_cost = add_cost (sub64 now started) m.receive_cost };
            }
            else f,
        status,
        frame,
      )

  unfoldable pub receive : ℕ → Fixture P → Fixture P × ReceiveStatus × RawCanFrame
  receive timeout_ms f =
      let (f1, started) = read_now P f in
      finished started
        (receive_impl timeout_ms (record f1 { metrics = begin_segment started f1.metrics }))

  unfoldable pub statistics : Fixture P → AcquisitionStatistics
  statistics f = record no_statistics {
    frames_received = f.source.generated;
    frames_dropped = f.source.dropped;
    queue_overflows = f.source.dropped;
  }
