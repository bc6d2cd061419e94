-- ===== src/Chats/Threads/Binding.antt =====
-- What the table of the conversations answers.
use dotagent.Common.{◌≤◌, ◌≡◌, refl, ◌⊎◌, inl, inr, ℕ, some, length}
use dotagent.Common.Int.{ℤ}
use dotagent.Common.Text.{Text}
use dotagent.Common.Table
use dotagent.Common.Table.{get-insert, refl_text}
use dotagent.Common.Table.Ordered.{IsOrdered, insert-IsOrdered}
use dotagent.Chats.Keys.{scoped_key}
use dotagent.Chats.Eviction.Oldest.{evict_oldest-le, evict_oldest-Kept, evict_oldest-oldest_first}
use dotagent.Chats.Threads.{
  ThreadSession, ThreadSessions, max_entries, bound_at, evict, get_for_chat, insert_for_chat,
}

-- A message that was just bound to a conversation resolves to it, or every binding that is kept is
-- at least as new.
pub bound-insert_for_chat :
    (table : ThreadSessions) (chat : Text) (id : ℤ) (session : Text) (at : ℕ)
    → IsOrdered table
    → let table' = insert_for_chat table chat id session at in
      (get_for_chat table' chat id ≡ some session)
      ⊎ ((key : Text) (e : ThreadSession) → Table.get table' key ≡ some e → at ≤ e.at)
unfolding insert_for_chat get_for_chat evict
bound-insert_for_chat table chat id session at o =
    let key = scoped_key chat id in
    let bound : ThreadSession = record { chat_id = chat; session = session; at = at } in
    let full = Table.insert table key bound in
    let there : Table.get full key ≡ some bound = rw (get-insert, refl_text key) refl in
    let ordered = insert-IsOrdered table key bound o in
    elim (evict_oldest-Kept bound_at key max_entries full) [
      | inr s ↦ inl (rw (s, there, refl_text chat) refl)
      | inl gone ↦ inr (λ k e stays.
          evict_oldest-oldest_first bound_at max_entries full key k bound e ordered there gone
            stays)
    ]

-- However many messages are bound, the table holds at most 1000.
pub insert_for_chat-max_entries :
    (table : ThreadSessions) (chat : Text) (id : ℤ) (session : Text) (at : ℕ)
    → IsOrdered table
    → length (insert_for_chat table chat id session at) ≤ max_entries
unfolding insert_for_chat evict
insert_for_chat-max_entries table chat id session at o =
    evict_oldest-le bound_at max_entries _ (insert-IsOrdered table (scoped_key chat id) _ o)
