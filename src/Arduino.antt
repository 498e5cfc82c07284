-- ===== src/Arduino.antt =====
-- examples/arduino: the two sketches that drive a telemetry runtime, ReceiveOnlyRuntime over the CAN
-- bus and RuntimeSyntheticHarness over a synthetic source.
pub mod Control
pub mod Settling
pub mod Obeying
pub mod ReceiveOnly
pub mod Observing
pub mod Harness
pub mod Retrying
pub mod Starting
pub mod Waiting
