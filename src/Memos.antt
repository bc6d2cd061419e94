-- ===== src/Memos.antt =====
-- crates/dotagent-assistant/src/memo.rs: the facts that a reply carries, and the block of facts
-- that goes before the next run.
pub mod Bounds
use dotagent.Common.{
  ℕ, ◌+◌, Bool, true, false, Option, none, some, List, [], ◌∷◌, ◌++◌, map, ltb, leb, if◌then◌else◌,
}
use dotagent.Common.Text.{Text, codes, strip_prefix, trim, trim_end, byte_len}
use dotagent.Common.Text.Lines.{
  lines, join_lines, join_with, split_at, split_once, split_whitespace, is_empty, non_empty,
}

pub record CapturedMemo : Type 0 where
  pub text : Text
  pub topics : List Text

-- the fact, if there is one
keep_memo : Text → List Text → Option CapturedMemo
keep_memo fact topics =
    let text = trim fact in
    if is_empty text then none else some (record { text = text; topics = topics })

abbrev topics_of : Text → List Text
topics_of list = non_empty (map trim (split_at b',' list))

-- the part after the bar
with_topics : Text → Option Text → Option CapturedMemo
unfolding keep_memo
with_topics fact none = none
with_topics fact (some list) = keep_memo fact (topics_of list)

memo_of : Text → Option (Text × Text) → Option CapturedMemo
unfolding keep_memo with_topics
memo_of rest none = keep_memo rest []
memo_of rest (some parts) = with_topics parts.0 (strip_prefix (codes "topics:") (trim parts.1))

abbrev memo_after : Option Text → Option CapturedMemo
memo_after none = none
memo_after (some rest) = memo_of rest (split_once b'|' rest)

unfoldable pub parse_memo_line : Text → Option CapturedMemo
unfolding memo_of
parse_memo_line line = memo_after (strip_prefix (codes "MEMO:") (trim line))

-- the loop over the lines: those that are kept, and the memos
abbrev sort_line :
    Option CapturedMemo → Text → List Text × List CapturedMemo → List Text × List CapturedMemo
sort_line none line rest = (line ∷ rest.0, rest.1)
sort_line (some memo) line rest = (rest.0, memo ∷ rest.1)

sort_lines : List Text → List Text × List CapturedMemo
unfolding parse_memo_line
sort_lines [] = ([], [])
sort_lines (line ∷ ls) = let rest = sort_lines ls in sort_line (parse_memo_line line) line rest

unfoldable pub strip_memos : Text → Text × List CapturedMemo
unfolding sort_lines
strip_memos reply =
    let sorted = sort_lines (lines reply) in (trim_end (join_lines sorted.0), sorted.1)

pub record MemoryContext : Type 0 where
  pub entries : List CapturedMemo
  pub topics : List Text

abbrev render_list : List Text → Option Text
render_list [] = none
render_list (t ∷ ts) = some (join_with (codes ", ") (t ∷ ts))

unfoldable pub render_topics : List Text → Option Text
render_topics topics = render_list (non_empty (map trim topics))

unfoldable pub collapse : Text → Text
collapse text = join_with (codes " ") (split_whitespace text)

abbrev header : Text
header = codes "## Memory"

abbrev bullet_of : Text → Option Text → Text
bullet_of text none = codes "- " ++ text
bullet_of text (some topics) = codes "- " ++ text ++ codes " [" ++ topics ++ codes "]"

-- The loop over the facts, with `total` bytes so far: the bullets, and the bytes after them. A fact
-- that does not fit ends it.
take_bullets : List CapturedMemo → ℕ → ℕ → List Text × ℕ
unfolding collapse render_topics
take_bullets [] total max_bytes = ([], total)
take_bullets (entry ∷ entries) total max_bytes =
    let text = collapse entry.text in
    let bullet = bullet_of text (render_topics entry.topics) in
    let skipped = take_bullets entries total max_bytes in
    let more = take_bullets entries (total + 1 + byte_len bullet) max_bytes in
    if is_empty text
    then skipped
    else (if ltb max_bytes (total + 1 + byte_len bullet)
        then ([], total)
        else (bullet ∷ more.0, more.1))

-- the closing line, if it fits
abbrev with_vocabulary : Text → Option Text → ℕ → ℕ → Text
with_vocabulary block none total max_bytes = block
with_vocabulary block (some topics) total max_bytes =
    let line = codes "Topics in use: " ++ topics in
    if leb (total + 2 + byte_len line) max_bytes then block ++ codes "\n\n" ++ line else block

-- an empty list of bullets gives no block
abbrev close_block : List Text → ℕ → Option Text → ℕ → Text
close_block [] total topics max_bytes = []
close_block (b ∷ bs) total topics max_bytes =
    with_vocabulary (header ++ codes "\n" ++ join_lines (b ∷ bs)) topics total max_bytes

unfoldable pub assemble_context_block : MemoryContext → ℕ → Text
unfolding take_bullets render_topics
assemble_context_block context max_bytes =
    let taken = take_bullets context.entries (byte_len header) max_bytes in
    close_block taken.0 taken.1 (render_topics context.topics) max_bytes
