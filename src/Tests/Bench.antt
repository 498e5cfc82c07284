-- ===== src/Tests/Bench.antt =====
-- The bench firmware on the simulated platform.
use esp32_vehicle_can_core.Prelude.{
  ◌+◌, ◌≡◌, ◌⊎◌, refl, true, false, not, List, [], ◌==◌, length, u32, u64,
}
use esp32_vehicle_can_core.CanBus.Types.{Result}
use esp32_vehicle_can_core.CanBus.Ring.{clear}
use esp32_vehicle_can_core.CanBus.Lifecycle.{begin_start}
use esp32_vehicle_can_core.CanBus.Acquisition.Start.{
  start, start_with_ownership, acquire, create_semaphores, drain_semaphores, drain, open_driver,
  launch, prepare_run,
}
use esp32_vehicle_can_core.Bench.Board.{
  Call, Gpio, initialize, safe_defaults, configure_output, disable,
}
use esp32_vehicle_can_core.Bench.Powering.{boosted, all_ok, power_up, SwitchesOff, initialize_lem}
use esp32_vehicle_can_core.Bench.App.{Scheduler, configuration, app_main}
use esp32_vehicle_can_core.Bench.Delivering.{delivered}
use esp32_vehicle_can_core.Bench.Counting.{reported, app_main_counts}
use esp32_vehicle_can_core.Bench.Ending.{Closes, app_main_ends}
use esp32_vehicle_can_core.Tests.Sim.{sim, initial, initial-Owned, willing, alone}

abbrev good_board : Gpio
good_board calls = true

-- The speed mode's pin cannot be reset: with nine calls made, the tenth fails.
abbrev bad_board : Gpio
bad_board calls = not (length calls == 10)

f_bad : (initialize bad_board []).1 ≡ false
unfolding initialize safe_defaults configure_output disable
f_bad = refl

initialize_lem_example :
    let (log, ok) = initialize bad_board [] in
    (((ok ≡ true) × (all_ok bad_board power_up ≡ true) × (log ≡ power_up))
      ⊎ ((ok ≡ false)
          × (all_ok bad_board power_up ≡ false)
          × ((base : List Call) × SwitchesOff bad_board base log)))
    × (boosted log ≡ true
        → ((safe_defaults bad_board []).1 ≡ true)
          × (all_ok bad_board (safe_defaults bad_board []).0 ≡ true))
initialize_lem_example = initialize_lem bad_board

abbrev scheduler : Scheduler sim
scheduler = record { tick_count = λ w. (w, 100); summary_period = 100; others = alone }

f_safe : (initialize good_board []).1 ≡ true
unfolding initialize safe_defaults configure_output
f_safe = refl

f_started : (start sim alone configuration (initial willing)).1 ≡ Result.ok
unfolding start start_with_ownership acquire create_semaphores drain_semaphores drain open_driver
    launch prepare_run begin_start clear
f_started = refl

app_main_ends_example :
    Closes sim good_board scheduler
      (initial willing)
      (initialize good_board [])
      (start sim alone configuration (initial willing))
      (app_main sim good_board scheduler 3 (initial willing))
app_main_ends_example = app_main_ends sim good_board scheduler 3 (initial willing)

app_main_counts_example :
    let a = (app_main sim good_board scheduler 3 (initial willing)).0 in
    (delivered sim scheduler a.bus ≡ u64 a.received_count)
    × (u32 (reported a.summaries + a.interval_count) ≡ u32 a.received_count)
app_main_counts_example =
    app_main_counts sim good_board scheduler 3 (initial willing) (λ b. refl) (initial-Owned willing)
      refl f_safe f_started
