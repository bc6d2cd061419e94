-- ===== src/Chats.antt =====
-- What a chat's messages are about: the two bounded tables that answer a reply,
-- crates/dotagent-state/src/sent_messages.rs and crates/dotagent-state/src/thread_sessions.rs.
pub mod Eviction
pub mod Keys
pub mod Sent
pub mod Threads
