-- ===== src/Audit.antt =====
-- The audit log: crates/dotagent-state/src/audit.rs.
pub mod Entry
pub mod Tail
pub mod Names
pub mod Log
pub mod Verify
