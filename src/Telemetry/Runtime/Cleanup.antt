-- ===== src/Telemetry/Runtime/Cleanup.antt =====
-- attempt_source_stop and attempt_partial_start_cleanup of
-- components/vehicle_telemetry/src/runtime.cpp.
use esp32_vehicle_can_core.Prelude.{◌+◌, Bool, true, false, not, ◌&&◌, ◌||◌, leb, if◌then◌else◌, u8}
use esp32_vehicle_can_core.Telemetry.Types.{ResultCode, is_ok}
use esp32_vehicle_can_core.Telemetry.Source.{is_not_running}
use esp32_vehicle_can_core.Telemetry.Runtime.{
  Surroundings, SourceOwnership, no_owner, successful_start, partial_start, SourceState, Runtime,
}

abbrev pub is_successful : SourceOwnership → Bool
is_successful successful_start = true
is_successful _ = false

abbrev pub is_partial : SourceOwnership → Bool
is_partial partial_start = true
is_partial _ = false

-- The source is owned no more.
abbrev pub disowned : SourceState → SourceState
disowned s = record s {
  source_started = false;
  source_ownership = no_owner;
  source_stop_called = false;
  source_stop_result = ResultCode.ok;
}

-- What the source's answer to a stop makes of the ownership, and what is passed on.
unfoldable pub source_stopped : ResultCode → SourceState → SourceState × ResultCode
source_stopped result s =
    if is_ok result || s.source_stop_retry_supported && is_not_running result
    then (record (disowned s) { source_stop_retry_supported = false }, ResultCode.ok)
    else if not s.source_stop_retry_supported
    then (disowned s, result)
    else (record s { source_stop_called = true; source_stop_result = result }, result)

unfoldable pub partial_stopped : ResultCode → SourceState → SourceState × ResultCode
partial_stopped result s =
    if is_ok result || is_not_running result
    then (record (disowned s) { source_stop_retry_supported = false }, ResultCode.ok)
    else (record s { source_stop_called = true; source_stop_result = result }, result)

module _ (E : Surroundings) where
  unfoldable pub attempt_source_stop : Runtime E → Runtime E × ResultCode
  attempt_source_stop r =
      let s = r.source in
      let (w, retried) = E.source_retry_stop r.world in
      let (s1, retry_result) = source_stopped retried s in
      let (w', stopped) = E.source_stop r.world in
      let (s2, stop_result) = source_stopped stopped s in
      if not (is_successful s.source_ownership) || not s.source_started
      then (r, s.source_stop_result)
      else if not s.source_stop_called
      then (record r { world = w'; source = s2 }, stop_result)
      else if s.source_stop_retry_supported
      then (record r { world = w; source = s1 }, retry_result)
      else (r, s.source_stop_result)

  unfoldable pub attempt_partial_start_cleanup : Runtime E → Runtime E × ResultCode
  attempt_partial_start_cleanup r =
      let s = r.source in
      let counted = record s { partial_cleanup_attempts = u8 (s.partial_cleanup_attempts + 1) } in
      let (w, retried) = E.source_retry_stop r.world in
      let (s1, retry_result) = partial_stopped retried counted in
      let (w', stopped) = E.source_stop r.world in
      let (s2, stop_result) = partial_stopped stopped counted in
      if not (is_partial s.source_ownership) || not s.source_started
      then (r, ResultCode.ok)
      else if leb 2 s.partial_cleanup_attempts && not s.source_stop_retry_supported
      then (r, s.source_stop_result)
      else if s.source_stop_retry_supported && s.source_stop_called
      then (record r { world = w; source = s1 }, retry_result)
      else (record r { world = w'; source = s2 }, stop_result)
