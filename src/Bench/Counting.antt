-- ===== src/Bench/Counting.antt =====
-- What app_main of firmware/tcan485-bench-ack-only/main/main.cpp counts.
use esp32_vehicle_can_core.Prelude.{
  ℕ, zero, suc, ◌+◌, ◌≡◌, ◌≢◌, inl, inr, refl, ap, Bool, true, false, Option, none, some, List, [],
  ◌∷◌, arith, u32, u64,
}
use esp32_vehicle_can_core.VehicleCore.Frame.{RawCanFrame}
use esp32_vehicle_can_core.CanBus.Types.{Result, LifecycleState, Counters}
use esp32_vehicle_can_core.CanBus.Platform.{Platform}
use esp32_vehicle_can_core.CanBus.Acquisition.{Bus}
use esp32_vehicle_can_core.CanBus.Acquisition.Start.{start}
use esp32_vehicle_can_core.CanBus.Acquisition.Starting.{Owned}
use esp32_vehicle_can_core.CanBus.Acquisition.Interval.{start_opens_interval}
use esp32_vehicle_can_core.CanBus.Acquisition.Stop.{receive}
use esp32_vehicle_can_core.Bench.Board.{Gpio, initialize}
use esp32_vehicle_can_core.Bench.Delivering.{
  delivered, LeavesDelivered, receive-Delivers, stop-delivered,
}
use esp32_vehicle_can_core.Bench.App.{
  App, Summary, Ending, Verdict, next_frame, end_batch, failure, verdict, Scheduler, judged,
  counted, frame_of, shut_down, batch, rounds, continued, delay_after, summarize,
  max_frames_per_batch, app_main, configuration, begun,
}

-- The frames of the summaries printed.
unfoldable pub reported : List Summary → ℕ
reported [] = 0
reported (s ∷ older) = s.interval + reported older

module _ (P : Platform) (gpio : Gpio) (S : Scheduler P) where
  -- Of the frames that the bus has delivered, `before` were delivered earlier, and each other one is
  -- counted, in the total and in a summary or in the interval that runs.
  pub record Counts (before : ℕ) (a : App P) : Type 0 where
    pub total : delivered P S a.bus ≡ u64 (before + a.received_count)
    pub intervals : u32 (reported a.summaries + a.interval_count) ≡ u32 a.received_count

  shut_down-Counts :
      (n : ℕ) (a : App P) → LeavesDelivered P S → Counts n a → Counts n (shut_down P gpio S a)
  unfolding shut_down
  shut_down-Counts n a leaves h = ground (arith, stop-delivered P S a.bus leaves)

  -- The three verdicts on a receive, the frame that it delivered being counted next.
  judged-Counts :
      (n : ℕ) (v : Verdict) (a1 : App P) (received : Bool) (rest : App P × Bool × Option Result)
      → LeavesDelivered P S
      → (v ≡ next_frame → Counts n rest.0)
      → (v ≢ next_frame → Counts n a1)
      → Counts n (judged P gpio S v a1 received rest).0
  judged-Counts n next_frame a1 received rest leaves on off = on refl
  judged-Counts n end_batch a1 received rest leaves on off = off (λ e. cc)
  judged-Counts n (failure r) a1 received rest leaves on off =
      shut_down-Counts n a1 leaves (off (λ e. cc))

  counted-Counts :
      (n : ℕ) (frame : RawCanFrame) (b : Bus P) (a : App P)
      → Counts n a
      → delivered P S b ≡ u64 (delivered P S a.bus + 1)
      → Counts n (counted P gpio S frame (record a { bus = b }))
  unfolding counted
  counted-Counts n frame b a h d = record {
    total = omega (arith, h.total);
    intervals = omega (arith, h.intervals);
  }

  batch-Counts :
      (n k : ℕ) (received : Bool) (a : App P)
      → LeavesDelivered P S
      → Counts n a
      → Counts n (batch P gpio S k received a).0
  unfolding batch
  batch-Counts n zero received a leaves h = h
  batch-Counts n (suc k) received a leaves h =
      let (b, result, frame) = receive P S.others a.bus in
      let a1 : App P = record a { bus = b } in
      let rest = batch P gpio S k true (counted P gpio S (frame_of P gpio S frame) a1) in
      elim (receive-Delivers P S a.bus leaves) [
        | inl (next, d) ↦
            judged-Counts n (verdict result) a1 received rest leaves
              (λ e.
                batch-Counts n k true (counted P gpio S (frame_of P gpio S frame) a1) leaves
                  (counted-Counts n (frame_of P gpio S frame) b a h d))
              (λ other. absurd (other next))
        | inr (other, d) ↦
            judged-Counts n (verdict result) a1 received rest leaves (λ next. absurd (other next))
              (λ e. ground (arith, d))
      ]

  summarize-Counts :
      (n : ℕ) (received : Bool) (a : App P) → Counts n a → Counts n (summarize P gpio S received a)
  unfolding summarize reported
  summarize-Counts n received a h = ground arith

  delay_after-Counts :
      (n : ℕ) (received : Bool) (a : App P)
      → LeavesDelivered P S
      → Counts n a
      → Counts n (delay_after P gpio S received a)
  unfolding delay_after
  delay_after-Counts n received a leaves h = ground (arith, leaves a.bus)

  continued-Counts :
      (n : ℕ) (failed : Option Result) (a : App P) (rest : App P × Option Ending)
      → Counts n a
      → Counts n rest.0
      → Counts n (continued P gpio S failed a rest).0
  continued-Counts n none a rest h k = k
  continued-Counts n (some r) a rest h k = h

  rounds-Counts :
      (n fuel : ℕ) (a : App P)
      → LeavesDelivered P S
      → Counts n a
      → Counts n (rounds P gpio S fuel a).0
  unfolding rounds
  rounds-Counts n zero a leaves h = h
  rounds-Counts n (suc fuel) a leaves h =
      let (a1, received, failed) = batch P gpio S max_frames_per_batch false a in
      let h1 : Counts n a1 = batch-Counts n max_frames_per_batch false a leaves h in
      continued-Counts n failed a1 _ h1 (
        rounds-Counts n fuel (delay_after P gpio S received (summarize P gpio S received a1)) leaves
          (delay_after-Counts n received (summarize P gpio S received a1) leaves
            (summarize-Counts n received a1 h1)))

  app_main_runs :
      (fuel : ℕ) (bus : Bus P)
      → (initialize gpio []).1 ≡ true
      → (start P S.others configuration bus).1 ≡ Result.ok
      → app_main P gpio S fuel bus
        ≡ rounds P gpio S fuel
            (begun P gpio S (start P S.others configuration bus).0 (initialize gpio []).0)
  unfolding app_main
  app_main_runs fuel bus safe ok = simp (safe, ok)

  begun-Counts :
      (bus : Bus P)
      → Owned P bus
      → bus.lifecycle.state ≡ LifecycleState.stopped
      → (start P S.others configuration bus).1 ≡ Result.ok
      → Counts 0 (begun P gpio S (start P S.others configuration bus).0 (initialize gpio []).0)
  unfolding start reported
  begun-Counts bus v st ok =
      let (empty, counters, watermark) =
        start_opens_interval P S.others configuration bus v st ok in
      record { total = ap (λ (c : Counters). c.frames_delivered) counters; intervals = refl }

  -- From consistent, stopped globals and with other tasks that deliver nothing themselves: when the
  -- board has become safe and the start has succeeded, app_main has, however long it runs and however
  -- it ends, counted exactly the frames that the bus says it has delivered, as a uint64_t; and the
  -- frames of its summaries and of the interval that runs make up its total, as a uint32_t.
  pub app_main_counts :
      (fuel : ℕ) (bus : Bus P)
      → LeavesDelivered P S
      → Owned P bus
      → bus.lifecycle.state ≡ LifecycleState.stopped
      → (initialize gpio []).1 ≡ true
      → (start P S.others configuration bus).1 ≡ Result.ok
      → let a = (app_main P gpio S fuel bus).0 in
        (delivered P S a.bus ≡ u64 a.received_count)
        × (u32 (reported a.summaries + a.interval_count) ≡ u32 a.received_count)
  app_main_counts fuel bus leaves v st safe ok =
      let begins = begun P gpio S (start P S.others configuration bus).0 (initialize gpio []).0 in
      let counts : Counts 0 (rounds P gpio S fuel begins).0 =
        rounds-Counts 0 fuel begins leaves (begun-Counts bus v st ok) in
      rw (app_main_runs fuel bus safe ok) (omega (arith, counts.total), counts.intervals)
