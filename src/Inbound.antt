-- ===== src/Inbound.antt =====
-- One inbound message of Telegram: `RateLimiter` of
-- crates/dotagent-notify/src/telegram_inbound.rs, `parse_invocation` of
-- crates/dotagent-core/src/command.rs, and the screening in crates/dotagent/src/commands/daemon.rs.
pub mod Limiter
pub mod Screen
pub mod Gates
pub mod Rate
