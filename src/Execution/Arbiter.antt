-- ===== src/Execution/Arbiter.antt =====
-- `RobotControlArbiter` of src/embodirun/devices/execution/arbitration.py. Each part of a method
-- that runs under the arbiter's condition is one function on the state, and a method is the
-- sequence of its parts with the port's answers between them.
pub mod State
pub mod Queue
pub mod Tasks
pub mod Stops
pub mod Authority
pub mod Worker
pub mod Completion
pub mod Steps
pub mod Invariant
pub mod Preserved
pub mod Latch
pub mod Dispatch
pub mod Admission
pub mod Accounting
pub mod Methods
pub mod Serial
pub mod Takeover
pub mod Races
mod Tests
