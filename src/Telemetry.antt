-- ===== src/Telemetry.antt =====
-- components/vehicle_telemetry: the runtime that polls an acquisition source, and that source.
pub mod Types
pub mod Budget
pub mod Source
pub mod Runtime
