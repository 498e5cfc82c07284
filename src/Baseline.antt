-- ===== src/Baseline.antt =====
-- tools/runtime_baseline: the synthetic source, processor and observer that drive the telemetry
-- runtime, and the residency of its worker.
pub mod Queue
pub mod Metrics
pub mod Fixture
pub mod Residency
pub mod Report
pub mod Firmware
