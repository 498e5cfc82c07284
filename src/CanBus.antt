-- ===== src/CanBus.antt =====
-- components/can_bus: the acquisition boundary, its ring, its lifecycle and its receive task.
pub mod Types
pub mod Fifo
pub mod Ring
pub mod Lifecycle
pub mod Platform
pub mod Acquisition
