-- ===== src/Execution/Scheduler.antt =====
-- `RobotIOScheduler` of src/embodirun/devices/execution/io.py: each part of a method that runs under
-- the scheduler's condition is one function on the state.
pub mod State
pub mod Admit
pub mod Worker
pub mod Preemptive
pub mod Steps
pub mod Queue
pub mod Preserved
pub mod Quarantine
pub mod Accounting
mod Tests
