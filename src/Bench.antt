-- ===== src/Bench.antt =====
-- firmware/tcan485-bench-ack-only: the board of the isolated bench and the main loop over the CAN bus,
-- with the driver binding of components/bench_can_ack.
pub mod Binding
pub mod Board
pub mod Powering
pub mod App
pub mod Delivering
pub mod Counting
pub mod Ending
