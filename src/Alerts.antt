-- ===== src/Alerts.antt =====
-- When an alert may speak again: crates/dotagent-state/src/notify_dedup.rs and the alerting part of
-- crates/dotagent/src/commands/daemon.rs.
pub mod Dedup
pub mod Message
pub mod Sweep
