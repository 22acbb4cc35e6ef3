-- ===== src/Execution/Arbiter/Tests.antt =====
-- The arbiter's theorems at concrete states.
mod States
mod Commands
mod Operator
mod Races
