-- ===== src/Observations.antt =====
-- The shared observations of a robot: src/embodirun/devices/observations.
pub mod Store
pub mod Subscription
pub mod Window
pub mod Values
pub mod Freezing
pub mod Refinement
mod Tests
