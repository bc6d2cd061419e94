-- ===== src/Chats/Sent.antt =====
-- crates/dotagent-state/src/sent_messages.rs: which notification a message of a chat was.
pub mod Lookup
use dotagent.Common.{ℕ, Bool, Option, none, some, if◌then◌else◌}
use dotagent.Common.Int.{ℤ}
use dotagent.Common.Text.{Text, text_eq, show_ℤ}
use dotagent.Common.Table
use dotagent.Common.Table.{Table}
use dotagent.Chats.Eviction.{evict_oldest}
use dotagent.Chats.Keys.{scoped_key}

pub record SentMessage : Type 0 where
  pub chat_id : Option Text
  pub agent : Text
  pub schedule : Text
  pub event : Text
  pub at : ℕ

abbrev pub SentMessages : Type 0
SentMessages = Table SentMessage

abbrev pub max_entries : ℕ
max_entries = 500

abbrev sent_at : SentMessage → ℕ
sent_at e = e.at

-- `evict_oldest` of this table
unfoldable pub evict : SentMessages → SentMessages
evict table = evict_oldest sent_at max_entries table

unfoldable pub get : SentMessages → ℤ → Option SentMessage
get table message_id = Table.get table (show_ℤ message_id)

abbrev in_chat : Option Text → Text → Bool
in_chat none chat_id = Bool.false
in_chat (some c) chat_id = text_eq c chat_id

abbrev of_chat : Text → Option SentMessage → Option SentMessage
of_chat chat_id none = none
of_chat chat_id (some e) = if in_chat e.chat_id chat_id then some e else none

unfoldable pub get_for_chat : SentMessages → Text → ℤ → Option SentMessage
get_for_chat table chat_id message_id =
    of_chat chat_id (Table.get table (scoped_key chat_id message_id))

unfoldable pub insert : SentMessages → ℤ → SentMessage → SentMessages
insert table message_id entry = evict (Table.insert table (show_ℤ message_id) entry)

unfoldable pub insert_for_chat : SentMessages → Text → ℤ → SentMessage → SentMessages
insert_for_chat table chat_id message_id entry =
    let scoped = record entry { chat_id = some chat_id } in
    evict (Table.insert table (scoped_key chat_id message_id) scoped)
