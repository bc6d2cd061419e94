-- ===== src/Notify.antt =====
-- crates/dotagent-notify: the caps on the size of a message.
pub mod Limits
pub mod Telegram
