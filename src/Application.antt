-- ===== src/Application.antt =====
-- What runs on top of the devices: src/embodirun/application.
pub mod Effects
pub mod Loops
pub mod ModelLoop
pub mod Chunks
pub mod Plans
pub mod Steps
pub mod Proposals
pub mod Cleanup
pub mod Direct
pub mod Submissions
pub mod Segments
mod Tests
