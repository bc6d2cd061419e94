-- ===== src/Chats/Keys.antt =====
-- `scoped_key` of crates/dotagent-state/src/sent_messages.rs and thread_sessions.rs: the same
-- function in both.
use dotagent.Common.{◌≡◌, inr, ◌∷◌, ◌++◌, arith}
use dotagent.Common.Int.{ℤ}
use dotagent.Common.Text.{Text, decimal, show_ℤ, byte_len}
use dotagent.Common.Text.Digits.{decimal_inj, has-decimal, show_ℤ_inj, split_first, split_bytes}

unfoldable pub scoped_key : Text → ℤ → Text
scoped_key chat_id message_id =
    decimal (byte_len chat_id) ++ (b':' ∷ (chat_id ++ (b':' ∷ show_ℤ message_id)))

-- Two messages have the same key only if they have the same chat and the same id: the length in
-- front of the chat keeps them apart whatever the chat's name holds.
pub scoped_key_inj :
    (c c' : Text) (i i' : ℤ) → scoped_key c i ≡ scoped_key c' i' → (c ≡ c') × (i ≡ i')
unfolding scoped_key
scoped_key_inj c c' i i' e =
    let (size, rest) =
      split_first b':' (decimal (byte_len c)) (decimal (byte_len c')) _ _
        (has-decimal b':' (byte_len c) (inr (omega arith)))
        (has-decimal b':' (byte_len c') (inr (omega arith))) e in
    let (chat, id) = split_bytes c c' _ _ (decimal_inj (byte_len c) (byte_len c') size) rest in
    (chat, show_ℤ_inj i i' (cc id))
