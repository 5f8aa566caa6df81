-- ===== src/Investigations.antt =====
-- Investigations in the database, internal/store/postgres/investigation.go and investigation_lease.go.
pub mod Row
pub mod Statements
pub mod History
pub mod Lasting
pub mod Endings
mod Tests
