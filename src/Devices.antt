-- ===== src/Devices.antt =====
-- Ownership of physical devices: src/embodirun/devices/lifecycle.py.
pub mod Types
pub mod Ledger
pub mod Manager
pub mod Acquire
pub mod Close
pub mod Events
pub mod Changes
pub mod Transitions
pub mod Leases
pub mod Sound
pub mod Holders
pub mod Exclusive
pub mod Held
pub mod Markers
pub mod Reopen
mod Tests
