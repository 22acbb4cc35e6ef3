-- ===== src/Execution.antt =====
-- The package src/embodirun/devices/execution: one robot's command arbiter and the scheduler of
-- its bus.
pub mod Io
pub mod Ticket
pub mod Arbiter
pub mod Scheduler
pub mod Port
mod PortTests
