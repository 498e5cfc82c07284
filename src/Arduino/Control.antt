-- ===== src/Arduino/Control.antt =====
-- How the sketches of examples/arduino start and stop their runtime. `others` is what the worker does
-- while a stop waits for it. What they print is left out.
use esp32_vehicle_can_core.Prelude.{
  ℕ, Bool, true, false, not, ◌&&◌, ◌||◌, Option, none, some, List, [], ◌∷◌, leb, ◌==◌,
  if◌then◌else◌, sub32,
}
use esp32_vehicle_can_core.Telemetry.Types.{default_config, is_ok}
use esp32_vehicle_can_core.Telemetry.Source.{is_not_running}
use esp32_vehicle_can_core.Telemetry.Runtime.{Surroundings, Runtime, read_diagnostics}
use esp32_vehicle_can_core.Telemetry.Runtime.Control.{is_stopped, configure, start, stop}

-- What `loop` reads from the serial line.
pub data Command : Type 0 where
  stop_command restart_command diagnostics_command other_command : Command

-- The code of a received byte.
unfoldable pub command_of : ℕ → Command
command_of c =
    if c == 115
    then stop_command
    else if c == 114
    then restart_command
    else if c == 100
    then diagnostics_command
    else other_command

module _ (E : Surroundings) (others : Runtime E → Runtime E) where
  -- stop_checked of RuntimeSyntheticHarness
  unfoldable pub stop_checked : Runtime E → Runtime E × Bool
  stop_checked r =
      let (r1, result) = stop E others false r in
      (r1, (is_ok result || is_not_running result) && is_stopped r1.lifecycle)

  -- stop_runtime of ReceiveOnlyRuntime
  unfoldable pub stop_runtime : Runtime E → Runtime E × Bool
  stop_runtime r =
      let (r1, result) = stop E others false r in
      if not (is_ok result) && not (is_not_running result) || not (is_stopped r1.lifecycle)
      then (r1, false)
      else (r1, true)

module _ (E : Surroundings) (reset_observer : E.World → E.World)
    (others : Runtime E → Runtime E) where
  -- start_runtime of ReceiveOnlyRuntime
  unfoldable pub start_runtime : Runtime E → Runtime E
  start_runtime r =
      let (r1, configured) = configure E default_config r in
      let (r2, started) = start E (record r1 { world = reset_observer r1.world }) in
      if not (is_stopped r.lifecycle)
      then r
      else if not (is_ok configured)
      then r1
      else if is_ok started
      then r2
      else (stop_runtime E others r2).0

  abbrev pub restarted : Runtime E × Bool → Runtime E
  restarted (r, done) = if done then start_runtime r else r

  unfoldable pub obey : Command → Runtime E → Runtime E
  obey stop_command r = (stop_runtime E others r).0
  obey restart_command r = restarted (stop_runtime E others r)
  obey diagnostics_command r = (read_diagnostics E r).0
  obey other_command r = r

  abbrev pub obey_any : Option ℕ → Runtime E → Runtime E
  obey_any none r = r
  obey_any (some c) r = obey (command_of c) r

  -- One call of `loop`, with the byte that waits and the time of `millis`; its last statement is the
  -- delay, during which the worker runs.
  unfoldable pub loop : Option ℕ → ℕ → Runtime E × ℕ → Runtime E × ℕ
  loop available now (r, previous_report) =
      let r1 = obey_any available r in
      let due = leb 1000 (sub32 now previous_report) in
      let r2 = if due then (read_diagnostics E r1).0 else r1 in
      (others r2, if due then now else previous_report)

  unfoldable pub loops : List (Option ℕ × ℕ) → Runtime E × ℕ → Runtime E × ℕ
  loops [] s = s
  loops ((available, now) ∷ later) s = loops later (loop available now s)

  -- `setup` and the calls of `loop` after it.
  unfoldable pub sketch : List (Option ℕ × ℕ) → Runtime E → Runtime E
  sketch events r = (loops events (start_runtime r, 0)).0
