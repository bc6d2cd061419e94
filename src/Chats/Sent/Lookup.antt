-- ===== src/Chats/Sent/Lookup.antt =====
-- What the table of the notifications answers.
use dotagent.Common.{◌≤◌, length}
use dotagent.Common.Int.{ℤ}
use dotagent.Common.Text.{Text}
use dotagent.Common.Table
use dotagent.Common.Table.Ordered.{IsOrdered, insert-IsOrdered}
use dotagent.Chats.Keys.{scoped_key}
use dotagent.Chats.Eviction.Oldest.{evict_oldest-le}
use dotagent.Chats.Sent.{SentMessage, SentMessages, max_entries, sent_at, evict, insert_for_chat}

-- However many notifications are recorded, the table holds at most 500.
pub insert_for_chat-le :
    (table : SentMessages) (chat : Text) (id : ℤ) (e : SentMessage)
    → IsOrdered table
    → length (insert_for_chat table chat id e) ≤ max_entries
unfolding insert_for_chat evict
insert_for_chat-le table chat id e o =
    evict_oldest-le sent_at max_entries _ (insert-IsOrdered table (scoped_key chat id) _ o)
