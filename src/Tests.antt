-- ===== src/Tests.antt =====
-- Concrete runs, and an application of each theorem at a concrete input.
pub mod Frames
pub mod Ring
pub mod Signals
pub mod Sim
pub mod Acquisition
pub mod Telemetry
pub mod Script
pub mod Runtime
pub mod Baseline
pub mod Bench
pub mod Arduino
