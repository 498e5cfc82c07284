-- ===== src/VehicleCore.antt =====
-- components/vehicle_core: the portable value types and the signal primitive.
pub mod Frame
pub mod Health
pub mod Signal
