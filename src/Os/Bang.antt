-- ===== src/Os/Bang.antt =====
-- A `!` line: the parsers of crates/dotagent/src/os_exec.rs.
pub mod Quotes
use dotagent.Common.{
  ℕ, Bool, true, false, not, ◌||◌, Option, none, some, List, [], ◌∷◌, ◌++◌, ◌==◌, if◌then◌else◌,
}
use dotagent.Common.Text.{Text, codes, text_eq, strip_prefix, is_whitespace, trim}
use dotagent.Common.Text.Lines.{is_empty}

-- the variables of the loop in `split_tokens`
pub record Splitting : Type 0 where
  pub out : List Text
  pub current : Text
  pub quote : Option ℕ
  pub started : Bool

abbrev pub at_start : Splitting
at_start = record { out = []; current = []; quote = none; started = false }

abbrev pub unfinished : Splitting → Bool
unfinished st = st.started || not (is_empty st.current)

abbrev pub push_char : Splitting → ℕ → Splitting
push_char st ch = record st { current = st.current ++ (ch ∷ []) }

abbrev pub end_token : Splitting → Splitting
end_token st =
    if unfinished st
    then record st { out = st.out ++ (st.current ∷ []); current = []; started = false }
    else st

abbrev pub split_char : Option ℕ → Splitting → ℕ → Splitting
split_char (some q) st ch = if ch == q then record st { quote = none } else push_char st ch
split_char none st ch =
    if ch == 39 || ch == 34
    then record st { quote = some ch; started = true }
    else (if is_whitespace ch then end_token st else push_char st ch)

abbrev pub split_loop : Splitting → Text → Splitting
split_loop st [] = st
split_loop st (ch ∷ input) = split_loop (split_char st.quote st ch) input

abbrev pub last_token : Splitting → List Text
last_token st = if unfinished st then st.out ++ (st.current ∷ []) else st.out

unfoldable pub split_tokens : Text → List Text
split_tokens input = last_token (split_loop at_start input)

abbrev bang_of : List Text → Option (Text × List Text)
bang_of [] = none
bang_of (bin ∷ tokens) = some (bin, tokens)

abbrev bang_after : Option Text → Option (Text × List Text)
bang_after none = none
bang_after (some rest) = if is_empty (trim rest) then none else bang_of (split_tokens (trim rest))

unfoldable pub parse_bang : Text → Option (Text × List Text)
parse_bang text = bang_after (strip_prefix (codes "!") text)

unfoldable pub is_confirmation : Text → Bool
is_confirmation text = text_eq (trim text) (codes "!!")
