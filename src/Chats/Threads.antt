-- ===== src/Chats/Threads.antt =====
-- crates/dotagent-state/src/thread_sessions.rs: which conversation a message of a chat belongs to.
pub mod Binding
use dotagent.Common.{ℕ, Option, none, some, if◌then◌else◌}
use dotagent.Common.Int.{ℤ}
use dotagent.Common.Text.{Text, text_eq}
use dotagent.Common.Table
use dotagent.Common.Table.{Table}
use dotagent.Chats.Eviction.{evict_oldest}
use dotagent.Chats.Keys.{scoped_key}

pub record ThreadSession : Type 0 where
  pub chat_id : Text
  pub session : Text
  pub at : ℕ

abbrev pub ThreadSessions : Type 0
ThreadSessions = Table ThreadSession

abbrev pub max_entries : ℕ
max_entries = 1000

abbrev bound_at : ThreadSession → ℕ
bound_at e = e.at

-- `evict_oldest` of this table
unfoldable pub evict : ThreadSessions → ThreadSessions
evict table = evict_oldest bound_at max_entries table

abbrev session_of : Text → Option ThreadSession → Option Text
session_of chat_id none = none
session_of chat_id (some e) = if text_eq e.chat_id chat_id then some e.session else none

unfoldable pub get_for_chat : ThreadSessions → Text → ℤ → Option Text
get_for_chat table chat_id message_id =
    session_of chat_id (Table.get table (scoped_key chat_id message_id))

unfoldable pub insert_for_chat : ThreadSessions → Text → ℤ → Text → ℕ → ThreadSessions
insert_for_chat table chat_id message_id session at = evict (
    Table.insert table (scoped_key chat_id message_id)
      (record { chat_id = chat_id; session = session; at = at }))
