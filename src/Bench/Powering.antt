-- ===== src/Bench/Powering.antt =====
-- The shared boost converter of tcan485_bench_board.cpp: when it is switched on, and that it is
-- switched off again.
use mathlib.Core.Path.{subst}
use esp32_vehicle_can_core.Prelude.{
  ap, sym, ℕ, ◌≡◌, ◌⊎◌, inl, inr, refl, ◌∙◌, Bool, true, false, ◌&&◌, ◌||◌, List, [], ◌∷◌, arith,
  ◌==◌,
}
use esp32_vehicle_can_core.Bench.Binding.{can_pins}
use esp32_vehicle_can_core.Bench.Board.{
  Call, input, output, powered, settled, reset_pin, set_level, set_direction, Gpio, can_speed_mode,
  shared_boost_enable, onboard_led_data, configure_output, and_also, plain, safe_defaults, disable,
  initialize,
}

-- Whether a log holds a call that asks for the boost.
abbrev pub asks_boost : Call → Bool
asks_boost (set_level pin level) = pin == shared_boost_enable && level == 1
asks_boost _ = false

unfoldable pub boosted : List Call → Bool
boosted [] = false
boosted (c ∷ log) = asks_boost c || boosted log

-- The calls that configure an output when none fails.
abbrev pub configured : ℕ → ℕ → List Call → List Call
configured pin level log = set_direction pin output ∷ set_level pin level ∷ reset_pin pin ∷ log

-- The calls that make the board safe, and those and the boost, when none fails.
abbrev pub safe_calls : List Call
safe_calls =
    set_direction 26 input
    ∷ reset_pin 26
    ∷ configured 23 0 (configured 27 1 (configured 4 0 (configured 16 0 [])))

abbrev pub power_up : List Call
power_up = configured 16 1 safe_calls

module _ (gpio : Gpio) where
  unfoldable pub all_ok : List Call → Bool
  all_ok [] = true
  all_ok (c ∷ log) = gpio (c ∷ log) && all_ok log

  -- A log and an answer that says whether every call since `base` succeeded, none of which asked for
  -- the boost.
  abbrev Tracks : List Call → List Call × Bool → Type 0
  Tracks base (log, ok) = (all_ok log ≡ (ok && all_ok base)) × (boosted log ≡ boosted base)

  abbrev Reports : (List Call → List Call × Bool) → Type 0
  Reports f = (log : List Call) → Tracks log (f log)

  and_also-Tracks :
      (base : List Call) (f : List Call → List Call × Bool) (p : List Call × Bool)
      → Reports f
      → Tracks base p
      → Tracks base (and_also gpio f p)
  and_also-Tracks base f (log, ok) reports h = ground (arith, reports log)

  configure_output-ok :
      (pin level : ℕ) (log : List Call)
      → all_ok (configure_output gpio pin level log).0
        ≡ ((configure_output gpio pin level log).1 && all_ok log)
  unfolding configure_output all_ok
  configure_output-ok pin level log = ground arith

  configure_output-boosted :
      (pin level : ℕ) (log : List Call)
      → pin == shared_boost_enable && level == 1 ≡ false
      → boosted (configure_output gpio pin level log).0 ≡ boosted log
  unfolding configure_output boosted
  configure_output-boosted pin level log e = ground arith

  configure_output-Reports :
      (pin level : ℕ)
      → pin == shared_boost_enable && level == 1 ≡ false
      → Reports (configure_output gpio pin level)
  configure_output-Reports pin level e log =
      (configure_output-ok pin level log, configure_output-boosted pin level log e)

  plain-Reports : (c : Call) → asks_boost c ≡ false → Reports (plain gpio c)
  unfolding all_ok boosted
  plain-Reports c e log = ground arith

  safe_defaults-Reports : Reports (safe_defaults gpio)
  unfolding safe_defaults
  safe_defaults-Reports log =
      and_also-Tracks log (plain gpio (set_direction can_pins.rx input)) _ (plain-Reports _ refl) (
        and_also-Tracks log (plain gpio (reset_pin can_pins.rx)) _ (plain-Reports _ refl) (
          and_also-Tracks log (configure_output gpio can_speed_mode 0) _
            (configure_output-Reports can_speed_mode 0 refl)
            (and_also-Tracks log (configure_output gpio can_pins.tx 1) _
              (configure_output-Reports can_pins.tx 1 refl)
              (and_also-Tracks log (configure_output gpio onboard_led_data 0) _
                (configure_output-Reports onboard_led_data 0 refl)
                (and_also-Tracks log (configure_output gpio shared_boost_enable 0) (log, true)
                  (configure_output-Reports shared_boost_enable 0 refl) (refl, refl))))))

  -- How the boost is switched off after the calls `base`: its pin is reset; unless the driver refuses
  -- that, the level 0 is asked for; and unless it refuses that too, the pin becomes an output.
  abbrev pub SwitchesOff : List Call → List Call → Type 0
  SwitchesOff base log =
      ((log ≡ reset_pin 16 ∷ base) × (gpio log ≡ false))
      ⊎ ((log ≡ set_level 16 0 ∷ reset_pin 16 ∷ base)
          × (gpio (reset_pin 16 ∷ base) ≡ true)
          × (gpio log ≡ false))
      ⊎ ((log ≡ configured 16 0 base)
          × (gpio (reset_pin 16 ∷ base) ≡ true)
          × (gpio (set_level 16 0 ∷ reset_pin 16 ∷ base) ≡ true))

  pub disable-SwitchesOff : (log : List Call) → SwitchesOff log (disable gpio log)
  unfolding disable configure_output
  disable-SwitchesOff log = ground arith

  -- A part that makes the calls `ds` when none of them fails, and answers whether that is so.
  abbrev Runs : (List Call → List Call × Bool) → (List Call → List Call) → Type 0
  Runs f ds =
      (log : List Call)
      → ((f log).1 ≡ true → (f log).0 ≡ ds log)
        × (all_ok (ds log) ≡ true → (f log ≡ (ds log, true)) × (all_ok log ≡ true))

  -- The same of what has been done so far, with the calls `cs`.
  abbrev Did : List Call → List Call × Bool → Type 0
  Did cs p = (p.1 ≡ true → p.0 ≡ cs) × (all_ok cs ≡ true → p ≡ (cs, true))

  configure_output-Runs :
      (pin level : ℕ) → Runs (configure_output gpio pin level) (configured pin level)
  unfolding configure_output all_ok
  configure_output-Runs pin level log = ground arith

  plain-Runs : (c : Call) → Runs (plain gpio c) (λ log. c ∷ log)
  unfolding all_ok
  plain-Runs c log = ground arith

  and_also-Did :
      (f : List Call → List Call × Bool) (ds : List Call → List Call) (cs : List Call)
      (p : List Call × Bool)
      → Runs f ds
      → Did cs p
      → Did (ds cs) (and_also gpio f p)
  and_also-Did f ds cs (log, ok) runs (made, would) = (
    λ all.
        let ran : ok ≡ true = ground arith in
        let same : log ≡ cs = made ran in
        let here : (f log).1 ≡ true = ground arith in
        let now : (f log).0 ≡ ds log = (runs log).0 here in now ∙ ap ds same,
    λ all.
        let (now, before) = (runs cs).1 all in
        let whole : (log, ok) ≡ (cs, true) = would before in
        subst (λ (q : List Call × Bool). and_also gpio f q ≡ (ds cs, true)) (sym whole)
          (ap (λ (q : List Call × Bool). (q.0, q.1 && true)) now),
  )

  safe_defaults-Did : Did safe_calls (safe_defaults gpio [])
  unfolding safe_defaults
  safe_defaults-Did = and_also-Did (plain gpio (set_direction 26 input)) _ _ _ (plain-Runs _) (
      and_also-Did (plain gpio (reset_pin 26)) _ _ _ (plain-Runs _) (
        and_also-Did (configure_output gpio 23 0) _ _ _ (configure_output-Runs 23 0) (
          and_also-Did (configure_output gpio 27 1) _ _ _ (configure_output-Runs 27 1) (
            and_also-Did (configure_output gpio 4 0) _ _ _ (configure_output-Runs 4 0) (
              and_also-Did (configure_output gpio 16 0) _ _ ([], true) (configure_output-Runs 16 0)
                ((λ e. refl), (λ e. refl)))))))

  -- The ends of `initialize`, the board being safe by `p`.
  abbrev Ends : List Call × Bool → List Call × Bool → Type 0
  Ends p (log, ok) =
      (((ok ≡ true) × (all_ok power_up ≡ true) × (log ≡ power_up))
        ⊎ ((ok ≡ false) × (all_ok power_up ≡ false) × ((base : List Call) × SwitchesOff base log)))
      × (boosted log ≡ true → (p.1 ≡ true) × (all_ok p.0 ≡ true))

  not_all : (b : Bool) → (b ≡ true → ⊥) → b ≡ false
  not_all true h = absurd (h refl)
  not_all false h = refl

  settled-Ends :
      (log : List Call) (q : List Call × Bool)
      → all_ok log ≡ true
      → log ≡ safe_calls
      → q ≡ configure_output gpio 16 1 log
      → Ends (log, true) (settled gpio q)
  settled-Ends log (log2, true) safe whole e =
      let ran : (configure_output gpio 16 1 log).1 ≡ true = cc in
      let made : log2 ≡ configured 16 1 log =
        ap (λ (x : List Call × Bool). x.0) e ∙ (configure_output-Runs 16 1 log).0 ran in
      let called : log2 ≡ power_up = made ∙ ap (configured 16 1) whole in
      let counted : all_ok log2 ≡ true =
        ap (λ (x : List Call × Bool). all_ok x.0) e
        ∙ (configure_output-ok 16 1 log ∙ rw (ran, safe) refl) in
      (inl (refl, sym (ap all_ok called) ∙ counted, called), λ b. (refl, safe))
  settled-Ends log (log2, false) safe whole e =
      let failed : all_ok power_up ≡ false = not_all (all_ok power_up) (λ all.
        let made : configure_output gpio 16 1 safe_calls ≡ (power_up, true) =
          ((configure_output-Runs 16 1 safe_calls).1 all).0 in
        absurd (cc (e, whole, made))) in
      (inr (refl, failed, (log2, disable-SwitchesOff log2)), λ b. (refl, safe))

  powered-Ends :
      (p : List Call × Bool)
      → Tracks [] p
      → Did safe_calls p
      → Ends p (settled gpio (powered gpio p))
  unfolding all_ok boosted disable
  powered-Ends (log, true) (safe, calm) (made, would) =
      settled-Ends log (configure_output gpio shared_boost_enable 1 log) safe (made refl) refl
  powered-Ends (log, false) (unsafe, calm) (made, would) =
      let off = configure_output-boosted shared_boost_enable 0 log refl in
      let failed : all_ok power_up ≡ false = not_all (all_ok power_up) (λ all.
        let before = ((configure_output-Runs 16 1 safe_calls).1 all).1 in
        absurd (cc (would before))) in
      (inr (refl, failed, (log, disable-SwitchesOff log)), λ b. absurd (cc (off, calm)))

  -- `initialize` on a fresh board succeeds exactly if the driver accepts every call of the sequence
  -- that sets the boost, the LED, the CAN transmitter and the speed mode to their safe levels, makes
  -- the CAN receiver an input, and then switches the boost on; the calls made are then just these.
  -- Otherwise it ends with the calls that switch the boost off: the reset of its pin, and unless the
  -- driver refuses that, the level 0, and unless it refuses that, the output. Either way the boost
  -- is asked for only after every call that makes the board safe has succeeded.
  pub initialize_lem :
      let (log, ok) = initialize gpio [] in
      (((ok ≡ true) × (all_ok power_up ≡ true) × (log ≡ power_up))
        ⊎ ((ok ≡ false) × (all_ok power_up ≡ false) × ((base : List Call) × SwitchesOff base log)))
      × (boosted log ≡ true
          → ((safe_defaults gpio []).1 ≡ true) × (all_ok (safe_defaults gpio []).0 ≡ true))
  unfolding initialize
  initialize_lem = powered-Ends (safe_defaults gpio []) (safe_defaults-Reports []) safe_defaults-Did
