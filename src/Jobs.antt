-- ===== src/Jobs.antt =====
-- The Relay job queue of internal/store/postgres (job.go, lease.go, result.go): rows, statements,
-- and the theorems on leases, fences and recorded results.
pub mod Row
pub mod Statements
pub mod Rows
pub mod History
pub mod Claimed
pub mod Effects
pub mod Evolution
pub mod Results
pub mod Fencing
pub mod Cancellation
mod Tests
