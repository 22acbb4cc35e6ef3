-- ===== src/Deployment.antt =====
-- What a deployment keeps: src/embodirun/deployment.
pub mod State
pub mod RoundTrip
pub mod Checks
mod Tests
