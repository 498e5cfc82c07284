-- ===== src/VehicleCore/Health.antt =====
-- The enumerations of vehicle_core/health.hpp, reading.hpp and decoder_contracts.hpp.
use esp32_vehicle_can_core.Prelude.{Option}

pub data TransportHealth : Type 0 where
  awaiting_traffic live timed_out faulted stopped : TransportHealth

pub data Availability : Type 0 where
  no_data fresh stale freshness_unverified unavailable : Availability

pub data ValidationStatus : Type 0 where
  reference observed confirmed : ValidationStatus

pub record Reading {ℓ} (T : Type ℓ) : Type ℓ where
  pub value : Option T
  pub availability : Availability
  pub validation : ValidationStatus
