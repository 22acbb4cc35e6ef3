-- ===== src/Jobs.antt =====
-- The job registry: src/embodirun/application/jobs.py over src/embodirun/application/job_store.py.
pub mod Types
pub mod Rows
pub mod Registry
pub mod Worker
pub mod Steps
pub mod RowLaws
pub mod Keys
pub mod Preserved
pub mod Evolution
pub mod Lifecycle
pub mod Cancellation
pub mod Closing
mod Tests
