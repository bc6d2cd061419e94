-- ===== src/Scheduler.antt =====
-- crates/dotagent-scheduler/src/lib.rs: which window of a schedule is due, when the next one comes,
-- whether to retry, and how healthy the schedule is.
pub mod Policy
pub mod Windows
pub mod Upcoming
pub mod Health
