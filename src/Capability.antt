-- ===== src/Capability.antt =====
-- The capabilities that a job may ask of a Relay, internal/relay/capability, and their arguments.
pub mod Names
pub mod Arguments
pub mod Bounds
mod Tests
