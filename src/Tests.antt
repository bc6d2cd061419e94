-- ===== src/Tests.antt =====
-- Concrete agents, and runs of the definitions on them.
pub mod Data
mod Dispatching
mod Alerting
mod Commanding
mod Screening
mod Scheduling
mod Waking
mod Messaging
mod Pooling
mod Recalling
mod Naming
mod Auditing
mod Sweeping
pub mod Printer
