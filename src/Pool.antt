-- ===== src/Pool.antt =====
-- crates/dotagent-runner/src/persistent.rs: one request to a live agent, from the frame that is
-- written to the answer, and the second attempt.
pub mod Frames
pub mod Exchange
pub mod Retry
pub mod Slots
pub mod Stderr
pub mod Keys
pub mod Cells
