-- ===== src/Bench/Board.antt =====
-- firmware/tcan485-bench-ack-only/main/tcan485_bench_board.cpp. The GPIO driver answers each call
-- from the calls made so far, the newest first; the answer is whether it is ESP_OK.
use esp32_vehicle_can_core.Prelude.{ℕ, Bool, true, false, ◌&&◌, List, ◌∷◌, if◌then◌else◌}
use esp32_vehicle_can_core.Bench.Binding.{can_pins}

pub data Direction : Type 0 where
  input output : Direction

pub data Call : Type 0 where
  reset_pin : ℕ → Call
  set_level : ℕ → ℕ → Call
  set_direction : ℕ → Direction → Call

abbrev pub Gpio : Type 0
Gpio = List Call → Bool

abbrev pub can_speed_mode : ℕ
can_speed_mode = 23

abbrev pub shared_boost_enable : ℕ
shared_boost_enable = 16

abbrev pub onboard_led_data : ℕ
onboard_led_data = 4

module _ (gpio : Gpio) where
  -- A call that is made only if those before it succeeded.
  abbrev pub then_call : Call → List Call × Bool → List Call × Bool
  then_call c (log, ok) = if ok then (c ∷ log, gpio (c ∷ log)) else (log, false)

  unfoldable pub configure_output : ℕ → ℕ → List Call → List Call × Bool
  configure_output pin level log =
      then_call (set_direction pin output)
        (then_call (set_level pin level) (reset_pin pin ∷ log, gpio (reset_pin pin ∷ log)))

  -- `f(...) == ESP_OK && ok`: the call is made in either case.
  abbrev pub and_also : (List Call → List Call × Bool) → List Call × Bool → List Call × Bool
  and_also f (log, ok) = let (log', result) = f log in (log', result && ok)

  abbrev pub plain : Call → List Call → List Call × Bool
  plain c log = (c ∷ log, gpio (c ∷ log))

  -- The part of `initialize` before the boost is switched on.
  unfoldable pub safe_defaults : List Call → List Call × Bool
  safe_defaults log = and_also (plain (set_direction can_pins.rx input)) (
      and_also (plain (reset_pin can_pins.rx)) (
        and_also (configure_output can_speed_mode 0) (
          and_also (configure_output can_pins.tx 1) (
            and_also (configure_output onboard_led_data 0)
              (and_also (configure_output shared_boost_enable 0) (log, true))))))

  unfoldable pub disable : List Call → List Call
  disable log = (configure_output shared_boost_enable 0 log).0

  abbrev pub powered : List Call × Bool → List Call × Bool
  powered (log, true) = configure_output shared_boost_enable 1 log
  powered (log, false) = (log, false)

  abbrev pub settled : List Call × Bool → List Call × Bool
  settled (log, true) = (log, true)
  settled (log, false) = (disable log, false)

  unfoldable pub initialize : List Call → List Call × Bool
  initialize log = settled (powered (safe_defaults log))
