-- ===== src/Audit/Names.antt =====
-- The names of rotated segments: `is_segment_name`, `segments`, `newest_segment` and
-- `next_segment_name` of crates/dotagent-state/src/audit.rs. A directory is a table of its files.
pub mod Fresh
use dotagent.Common.{
  ℕ, zero, suc, ◌+◌, ◌-◌, Bool, true, false, not, ◌&&◌, ◌||◌, Option, none, some, List, [], ◌∷◌,
  ◌++◌, leb, ◌==◌, if◌then◌else◌, all, is_some, or_option,
}
use dotagent.Common.Text.{Text, codes, strip_prefix, byte_len, decimal}
use dotagent.Common.Text.Digits.{has}
use dotagent.Common.Text.Lines.{split_once, is_empty}
use dotagent.Common.Table.{Table, get}

-- the files of the log's directory, by their names
abbrev pub Directory : Type 0
Directory = Table (List ℕ)

abbrev pub is_ascii_digit : ℕ → Bool
is_ascii_digit c = leb b'0' c && leb c b'9'

-- `contains("..")`
abbrev pub has_dots : Text → Bool
has_dots [] = false
has_dots (c ∷ []) = false
has_dots (c ∷ d ∷ s) = (c == b'.' && d == b'.') || has_dots (d ∷ s)

-- from the byte at `i` on: digits, but for the `T` in the ninth place
abbrev pub stamp_from : ℕ → Text → Bool
stamp_from i [] = true
stamp_from i (c ∷ s) = (if i == 8 then c == b'T' else is_ascii_digit c) && stamp_from (suc i) s

abbrev pub is_stamp : Text → Bool
is_stamp stamp = byte_len stamp == 15 && stamp_from 0 stamp

abbrev is_dup : Text → Bool
is_dup dup = not (is_empty dup) && all is_ascii_digit dup

abbrev is_suffix : Text → Option (Text × Text) → Bool
is_suffix suffix none = is_stamp suffix
is_suffix suffix (some (stamp, dup)) = is_dup dup && is_stamp stamp

abbrev is_segment_suffix : Option Text → Bool
is_segment_suffix none = false
is_segment_suffix (some suffix) = is_suffix suffix (split_once b'-' suffix)

abbrev after_stem : Text → Text → Option Text
after_stem stem name = strip_prefix (stem ++ codes ".") name

unfoldable pub is_segment_name : Text → Text → Bool
is_segment_name stem name =
    not (has b'/' name || has b'\\' name || has_dots name)
    && is_segment_suffix (after_stem stem name)

-- in the order of the names
unfoldable pub segments : Text → Directory → List Text
unfolding is_segment_name
segments stem [] = []
segments stem ((name, file) ∷ dir) =
    let later = segments stem dir in if is_segment_name stem name then name ∷ later else later

-- `pop` of the list
abbrev last : List Text → Option Text
last [] = none
last (name ∷ names) = or_option (last names) (some name)

unfoldable pub newest_segment : Text → Directory → Option Text
unfolding segments
newest_segment stem dir = last (segments stem dir)

abbrev pub candidate : Text → Text → ℕ → Text
candidate stem stamp n =
    if n == 0
    then stem ++ codes "." ++ stamp
    else stem ++ codes "." ++ stamp ++ codes "-" ++ decimal n

-- the candidates from `n` on, so many of them
free_from : ℕ → Text → Text → ℕ → Directory → Option Text
free_from zero stem stamp n dir = none
free_from (suc more) stem stamp n dir =
    let later = free_from more stem stamp (suc n) dir in
    let name = candidate stem stamp n in if is_some (get dir name) then later else some name

-- `none` when the thousand names are taken
unfoldable pub next_segment_name : Text → Text → Directory → Option Text
unfolding free_from
next_segment_name stem stamp dir = free_from 1000 stem stamp 0 dir
