-- ===== src/Bench/Ending.antt =====
-- The ends of app_main of firmware/tcan485-bench-ack-only/main/main.cpp.
use mathlib.Core.Path.{subst}
use esp32_vehicle_can_core.Prelude.{
  sym, ◌∙◌, arith, ℕ, zero, suc, ◌≡◌, ◌≢◌, ◌⊎◌, inl, inr, refl, ap, Bool, true, false, Option, none,
  some, List, [], if◌then◌else◌,
}
use esp32_vehicle_can_core.CanBus.Types.{Result}
use esp32_vehicle_can_core.CanBus.Platform.{Platform}
use esp32_vehicle_can_core.CanBus.Acquisition.{Bus}
use esp32_vehicle_can_core.CanBus.Acquisition.Start.{start}
use esp32_vehicle_can_core.CanBus.Acquisition.Stop.{receive, stop}
use esp32_vehicle_can_core.Bench.Board.{Call, Gpio, initialize, disable}
use esp32_vehicle_can_core.Bench.Powering.{SwitchesOff, disable-SwitchesOff, initialize_lem}
use esp32_vehicle_can_core.Bench.App.{
  App, Ending, board_refused, start_failed, receive_failed, Verdict, next_frame, end_batch, failure,
  verdict, Scheduler, judged, counted, frame_of, shut_down, batch, rounds, continued, delay_after,
  summarize, max_frames_per_batch, app_main, configuration, has_started, idle, begun,
}

verdict-failure : (r r' : Result) → verdict r ≡ failure r' → r ≡ r'
unfolding verdict
verdict-failure Result.ok r' e = cc
verdict-failure Result.timeout r' e = cc
verdict-failure r r' e = cc

abbrev renamed : Option Result → Option Ending
renamed none = none
renamed (some r) = some (receive_failed r)

-- Neither a frame nor a timeout.
failure-other : (r r' : Result) → verdict r ≡ failure r' → (r ≢ Result.ok) × (r ≢ Result.timeout)
unfolding verdict
failure-other Result.ok r' e = absurd cc
failure-other Result.timeout r' e = absurd cc
failure-other r r' e = ((λ x. cc), (λ x. cc))

module _ (P : Platform) (gpio : Gpio) (S : Scheduler P) where
  -- The loop was left because a call of `receive` answered `r`, with the GPIO calls `calls` made
  -- before.
  abbrev LeftBy : List Call → Result → App P → Type 0
  LeftBy calls r a =
      (r ≢ Result.ok)
      × (r ≢ Result.timeout)
      × SwitchesOff gpio calls a.calls
      × ((b : Bus P) × ((receive P S.others b).1 ≡ r)
          × (a.bus ≡ (stop P S.others (receive P S.others b).0).0))

  abbrev BatchEnds : List Call → App P × Bool × Option Result → Type 0
  BatchEnds calls (a, received, failed) =
      ((failed ≡ none) × (a.calls ≡ calls)) ⊎ ((r : Result) × (failed ≡ some r) × LeftBy calls r a)

  shut_down-LeftBy :
      (calls : List Call) (r r' : Result) (a : App P)
      → (receive P S.others a.bus).1 ≡ r
      → verdict r ≡ failure r'
      → a.calls ≡ calls
      → LeftBy calls r (shut_down P gpio S (record a { bus = (receive P S.others a.bus).0 }))
  unfolding shut_down
  shut_down-LeftBy calls r r' a answered failed h =
      let (not_ok, not_timeout) = failure-other r r' failed in
      (
        not_ok,
        not_timeout,
        subst (λ c. SwitchesOff gpio c (disable gpio a.calls)) h (disable-SwitchesOff gpio a.calls),
        (a.bus, answered, refl),
      )

  judged-BatchEnds :
      (calls : List Call) (v : Verdict) (a : App P) (received : Bool)
      (rest : App P × Bool × Option Result)
      → verdict (receive P S.others a.bus).1 ≡ v
      → a.calls ≡ calls
      → BatchEnds calls rest
      → BatchEnds calls
          (judged P gpio S v (record a { bus = (receive P S.others a.bus).0 }) received rest)
  judged-BatchEnds calls next_frame a received rest e h k = k
  judged-BatchEnds calls end_batch a received rest e h k = inl (refl, h)
  judged-BatchEnds calls (failure r') a received rest e h k =
      let r = (receive P S.others a.bus).1 in
      let same : r ≡ r' = verdict-failure r r' e in
      inr (r, ap some (sym same), shut_down-LeftBy calls r r' a refl e h)

  batch-BatchEnds :
      (calls : List Call) (n : ℕ) (received : Bool) (a : App P)
      → a.calls ≡ calls
      → BatchEnds calls (batch P gpio S n received a)
  unfolding batch counted
  batch-BatchEnds calls zero received a h = inl (refl, h)
  batch-BatchEnds calls (suc n) received a h =
      let (b, result, frame) = receive P S.others a.bus in
      let a1 : App P = record a { bus = b } in
      judged-BatchEnds calls (verdict result) a received _ refl h
        (batch-BatchEnds calls n true (counted P gpio S (frame_of P gpio S frame) a1) h)

  abbrev RoundsEnd : List Call → App P × Option Ending → Type 0
  RoundsEnd calls (a, ending) =
      (ending ≡ none) ⊎ ((r : Result) × (ending ≡ some (receive_failed r)) × LeftBy calls r a)

  continued-RoundsEnd :
      (calls : List Call) (received : Bool) (failed : Option Result) (a : App P)
      (rest : App P × Option Ending)
      → BatchEnds calls (a, received, failed)
      → (a.calls ≡ calls → RoundsEnd calls rest)
      → RoundsEnd calls (continued P gpio S failed a rest)
  continued-RoundsEnd calls received none a rest (inl (e, h)) k = k h
  continued-RoundsEnd calls received none a rest (inr (r, e, left)) k = absurd cc
  continued-RoundsEnd calls received (some r) a rest (inl (e, h)) k = absurd cc
  continued-RoundsEnd calls received (some r) a rest (inr (r', e, left)) k =
      inr (r', ap (λ (x : Option Result). renamed x) e, left)

  between_rounds :
      (received : Bool) (a : App P)
      → (delay_after P gpio S received (summarize P gpio S received a)).calls ≡ a.calls
  unfolding delay_after summarize
  between_rounds received a = ground arith

  rounds-RoundsEnd :
      (calls : List Call) (fuel : ℕ) (a : App P)
      → a.calls ≡ calls
      → RoundsEnd calls (rounds P gpio S fuel a)
  unfolding rounds
  rounds-RoundsEnd calls zero a h = inl refl
  rounds-RoundsEnd calls (suc fuel) a h =
      let (a1, received, failed) = batch P gpio S max_frames_per_batch false a in
      continued-RoundsEnd calls received failed a1 _
        (batch-BatchEnds calls max_frames_per_batch false a h)
        (λ h1.
          rounds-RoundsEnd calls fuel
            (delay_after P gpio S received (summarize P gpio S received a1))
            (between_rounds received a1 ∙ h1))

  -- The ends of app_main, with what the board's initialisation and the start of the bus answered.
  abbrev pub Closes : Bus P → List Call × Bool → Bus P × Result → App P × Option Ending → Type 0
  Closes bus (calls, safe) (started, result) (a, ending) =
      ((ending ≡ none) × (safe ≡ true) × (result ≡ Result.ok))
      ⊎ ((ending ≡ some board_refused)
          × (safe ≡ false)
          × (a.bus ≡ bus)
          × ((base : List Call) × SwitchesOff gpio base a.calls))
      ⊎ ((ending ≡ some (start_failed result))
          × (safe ≡ true)
          × (result ≢ Result.ok)
          × (a.bus ≡ started)
          × SwitchesOff gpio calls a.calls)
      ⊎ ((r : Result) × (ending ≡ some (receive_failed r))
          × (safe ≡ true)
          × (result ≡ Result.ok)
          × (r ≢ Result.ok)
          × (r ≢ Result.timeout)
          × SwitchesOff gpio calls a.calls
          × ((b : Bus P) × ((receive P S.others b).1 ≡ r)
              × (a.bus ≡ (stop P S.others (receive P S.others b).0).0)))

  rounds-Closes :
      (bus started : Bus P) (calls : List Call) (run : App P × Option Ending)
      → RoundsEnd calls run
      → Closes bus (calls, true) (started, Result.ok) run
  rounds-Closes bus started calls run (inl e) = inl (e, refl, refl)
  rounds-Closes bus started calls run (inr (r, e, (other, late, off, stopped))) =
      inr (inr (inr (r, e, refl, refl, other, late, off, stopped)))

  started-Closes :
      (bus started : Bus P) (calls : List Call) (result : Result) (run : App P × Option Ending)
      → RoundsEnd calls run
      → Closes bus
          (calls, true)
          (started, result)
          (if has_started result
            then run
            else (idle P gpio S started (disable gpio calls), some (start_failed result)))
  started-Closes bus started calls Result.ok run h = rounds-Closes bus started calls run h
  started-Closes bus started calls result run h =
      inr (inr (inl (refl, refl, (λ e. cc), refl, disable-SwitchesOff gpio calls)))

  unless_safe-Closes :
      (bus : Bus P) (started : Bus P × Result) (calls : List Call) (safe : Bool)
      (run : App P × Option Ending)
      → (safe ≡ false → (base : List Call) × SwitchesOff gpio base calls)
      → Closes bus (calls, true) started run
      → Closes bus
          (calls, safe)
          started
          (if safe then run else (idle P gpio S bus calls, some board_refused))
  unless_safe-Closes bus started calls true run off h = h
  unless_safe-Closes bus started calls false run off h = inr (inl (refl, refl, refl, off refl))

  refused-off :
      (initialize gpio []).1 ≡ false
      → (base : List Call) × SwitchesOff gpio base (initialize gpio []).0
  refused-off refused = elim (initialize_lem gpio).0 [
    | inl (ok, all, on) ↦ absurd cc
    | inr (failed, _, off) ↦ off
  ]

  -- app_main ends in three ways, and each ends with the calls that switch the boost off: the reset of
  -- its pin, and unless the driver refuses that, the level 0, and unless it refuses that, the output.
  -- The board did not become safe, and the CAN bus is untouched; or it did and the start of the bus
  -- failed; or the start succeeded and a call of `receive` answered neither a frame nor a timeout,
  -- and the bus has been stopped after that call. In the two last ways they are made right after the
  -- calls of `initialize`. While app_main still runs, the board is safe and the start has succeeded.
  pub app_main_ends :
      (fuel : ℕ) (bus : Bus P)
      → Closes bus
          (initialize gpio [])
          (start P S.others configuration bus)
          (app_main P gpio S fuel bus)
  unfolding app_main
  app_main_ends fuel bus =
      let (calls, safe) = initialize gpio [] in
      let (started, result) = start P S.others configuration bus in
      let run = rounds P gpio S fuel (begun P gpio S started calls) in
      unless_safe-Closes bus (started, result) calls safe _ refused-off
        (started-Closes bus started calls result run
          (rounds-RoundsEnd calls fuel (begun P gpio S started calls) refl))
