-- ===== src/Os.antt =====
-- Running an installed binary for a chat: crates/dotagent-core/src/config.rs (the `[os]` section),
-- crates/dotagent/src/os_exec.rs, and the handlers of crates/dotagent/src/commands/daemon.rs and
-- crates/dotagent/src/commands/mcp.rs that call them.
pub mod Policy
pub mod Bang
pub mod Texts
pub mod Commands
pub mod Serve
