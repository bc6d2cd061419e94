-- ===== src/Notify/Telegram.antt =====
-- The body of a Telegram message: `escape_markdown_v2`, `truncate` and `render_body` of
-- crates/dotagent-notify/src/telegram.rs.
pub mod Escapes
use dotagent.Common.{
  ℕ, zero, suc, ◌+◌, ◌%◌, Bool, true, false, ◌||◌, Option, none, some, List, [], ◌∷◌, ◌++◌, ◌==◌,
  if◌then◌else◌, any,
}
use dotagent.Common.Text.{Text, codes}
use dotagent.Notify.Limits.{truncation_notice, truncate_utf16_with}

pub data ParseMode : Type 0 where
  markdown_v2 html markdown_legacy : ParseMode

abbrev pub backslash : ℕ
backslash = b'\\'

abbrev pub reserved : List ℕ
reserved = codes "\\_*[]()~`>#+-=|{}.!"

unfoldable pub is_reserved : ℕ → Bool
is_reserved c = any (λ r. r == c) reserved

unfoldable pub escape_markdown_v2 : Text → Text
unfolding is_reserved
escape_markdown_v2 [] = []
escape_markdown_v2 (c ∷ s) =
    let rest = escape_markdown_v2 s in if is_reserved c then backslash ∷ c ∷ rest else c ∷ rest

abbrev pub max_message_units : ℕ
max_message_units = 4096

-- the length of the run of backslashes at the end, counted from the front
abbrev pub trailing : ℕ → Text → ℕ
trailing n [] = n
trailing n (c ∷ s) = trailing (if c == backslash then n + 1 else 0) s

-- `String::pop`
abbrev pub pop : Text → Text
pop [] = []
pop (c ∷ []) = []
pop (c ∷ d ∷ s) = c ∷ pop (d ∷ s)

-- the repair of a head that may end in half an escape
unfoldable pub drop_dangling : Text → Text
drop_dangling head = if trailing 0 head % 2 == 1 then pop head else head

abbrev pub is_markdown : Option ParseMode → Bool
is_markdown (some markdown_v2) = true
is_markdown _ = false

unfoldable pub truncate : Text → Option ParseMode → Text
unfolding escape_markdown_v2 drop_dangling
truncate text parse_mode =
    if is_markdown parse_mode
    then truncate_utf16_with text max_message_units (escape_markdown_v2 truncation_notice)
        drop_dangling
    else truncate_utf16_with text max_message_units truncation_notice (λ head. head)

unfoldable pub render_body : Text → Option ParseMode → Text
unfolding truncate
render_body text parse_mode =
    truncate (if is_markdown parse_mode then escape_markdown_v2 text else text) parse_mode
