-- ===== src/VehicleCore/Signal.antt =====
-- vehicle_core/signal.hpp: a value with its clock, its freshness and its status.
-- Timestamps are uint64_t; the code only compares them and subtracts under a guard, so that no
-- operation wraps.
pub mod Laws
use esp32_vehicle_can_core.Prelude.{
  ℕ, ◌-◌, Bool, true, false, not, ◌&&◌, ◌||◌, Option, none, some, ltb, leb, ◌==◌, if◌then◌else◌,
}
use esp32_vehicle_can_core.VehicleCore.Health.{
  Availability, no_data, fresh, stale, freshness_unverified, unavailable, ValidationStatus, Reading,
}

pub data SignalStatus : Type 0 where
  unknown valid stale_status : SignalStatus

pub data SignalUpdateResult : Type 0 where
  rejected idempotent updated : SignalUpdateResult

pub data SignalUnit : Type 0 where
  no_unit kilometres_per_hour revolutions_per_minute boolean : SignalUnit

pub record Signal {ℓ} (T : Type ℓ) : Type ℓ where
  pub value : T
  pub unit : SignalUnit
  pub has_value : Bool
  pub last_update_us : ℕ
  pub freshness_timeout_us : Option ℕ
  pub status : SignalStatus

abbrev is_valid_status : SignalStatus → Bool
is_valid_status valid = true
is_valid_status _ = false

abbrev is_unknown_status : SignalStatus → Bool
is_unknown_status unknown = true
is_unknown_status _ = false

abbrev is_rejected : SignalUpdateResult → Bool
is_rejected rejected = true
is_rejected _ = false

module _ {ℓ} {T : Type ℓ} where
  -- `T value{}` is the argument `zero_value`.
  unfoldable pub construct : T → SignalUnit → Option ℕ → Signal T
  construct zero_value signal_unit timeout_us = record {
    value = zero_value;
    unit = signal_unit;
    has_value = false;
    last_update_us = 0;
    freshness_timeout_us = timeout_us;
    status = unknown;
  }

  unfoldable pub is_unavailable : Signal T → Bool
  is_unavailable s = s.has_value && is_unknown_status s.status

  accept : Signal T → T → ℕ → Signal T
  accept s new_value timestamp = record s {
    value = new_value;
    last_update_us = timestamp;
    has_value = true;
    status = valid;
  }

  -- `same` is the `operator==` of `T`.
  unfoldable pub update_status : (T → T → Bool) → Signal T → T → ℕ → Signal T × SignalUpdateResult
  unfolding accept
  update_status same s new_value timestamp =
      if not s.has_value
      then (accept s new_value timestamp, updated)
      else if ltb timestamp s.last_update_us
      then (s, rejected)
      else if timestamp == s.last_update_us
      then (s, if same s.value new_value then idempotent else rejected)
      else (accept s new_value timestamp, updated)

  unfoldable pub update : (T → T → Bool) → Signal T → T → ℕ → Signal T × Bool
  unfolding update_status
  update same s new_value timestamp =
      let (s', r) = update_status same s new_value timestamp in (s', not (is_rejected r))

  unfoldable pub invalidate : Signal T → ℕ → Signal T × Bool
  invalidate s timestamp =
      if s.has_value && leb timestamp s.last_update_us
      then (s, false)
      else (record s { status = unknown }, true)

  unfoldable pub set_freshness_timeout : Signal T → Option ℕ → Signal T
  set_freshness_timeout s timeout_us = record s { freshness_timeout_us = timeout_us }

  -- The part of `refresh` below its first guard; there `last_update_us ≤ now`.
  mark_stale : Signal T → ℕ → Option ℕ → Signal T
  mark_stale s now none = if ltb s.last_update_us now then record s { status = stale_status } else s
  mark_stale s now (some timeout) =
      if ltb timeout (now - s.last_update_us) then record s { status = stale_status } else s

  unfoldable pub refresh : Signal T → ℕ → Signal T
  unfolding mark_stale
  refresh s now =
      if not (is_valid_status s.status) || ltb now s.last_update_us
      then s
      else mark_stale s now s.freshness_timeout_us

  abbrev age : Signal T → ℕ → ℕ
  age s now = if leb s.last_update_us now then now - s.last_update_us else 0

  freshness : Signal T → ℕ → Option ℕ → Availability
  freshness s now none = freshness_unverified
  freshness s now (some timeout) = if leb (age s now) timeout then fresh else stale

  unfoldable pub status_at : Signal T → ℕ → Availability
  unfolding freshness
  status_at s now =
      if not s.has_value
      then no_data
      else if is_unknown_status s.status
      then unavailable
      else freshness s now s.freshness_timeout_us

  unfoldable pub snapshot : Signal T → ℕ → ValidationStatus → Reading T
  unfolding status_at
  snapshot s now validation = record {
    value = if s.has_value then some s.value else none;
    availability = status_at s now;
    validation = validation;
  }
