-- ===== src/Common/Text/Lines.antt =====
-- Lines, separators and white space, as the methods of `str` split at them.
use Prim.Native.Nat.{ℕ}
use mathlib.Core.Bool.{Bool, true, false, ◌&&◌}
use mathlib.Core.Option.{Option, none, some}
use mathlib.Core.List.{List, [], ◌∷◌, ◌++◌}
use dotagent.Common.Tests.{◌==◌, if◌then◌else◌}
use dotagent.Common.Text.{Text, is_whitespace}

-- `str::lines`: a line ends with LF or CRLF
abbrev pub onto_first : ℕ → List Text → List Text
onto_first c [] = (c ∷ []) ∷ []
onto_first c (l ∷ ls) = (c ∷ l) ∷ ls

abbrev pub lines : Text → List Text
lines [] = []
lines (c ∷ []) = if c == 10 then [] ∷ [] else (c ∷ []) ∷ []
lines (c ∷ d ∷ s) =
    let later = lines (d ∷ s) in
    let after_crlf = lines s in
    if c == 13 && d == 10
    then [] ∷ after_crlf
    else (if c == 10 then [] ∷ later else onto_first c later)

abbrev pub join_lines : List Text → Text
join_lines [] = []
join_lines (l ∷ []) = l
join_lines (l ∷ m ∷ ls) = l ++ (10 ∷ join_lines (m ∷ ls))

-- `join` with any separator
abbrev pub join_with : Text → List Text → Text
join_with sep [] = []
join_with sep (l ∷ []) = l
join_with sep (l ∷ m ∷ ls) = l ++ (sep ++ join_with sep (m ∷ ls))

-- `split` at a character, and `split_once`
abbrev pub split_at : ℕ → Text → List Text
split_at c [] = [] ∷ []
split_at c (d ∷ s) = let later = split_at c s in if d == c then [] ∷ later else onto_first d later

abbrev onto_left : ℕ → Option (Text × Text) → Option (Text × Text)
onto_left d none = none
onto_left d (some p) = some (d ∷ p.0, p.1)

abbrev pub split_once : ℕ → Text → Option (Text × Text)
split_once c [] = none
split_once c (d ∷ s) =
    let later = split_once c s in if d == c then some ([], s) else onto_left d later

-- `rsplit_once`: what stands left and right of the last one
abbrev with_first : ℕ → ℕ → Text → Option (Text × Text) → Option (Text × Text)
with_first sep c s none = if c == sep then some ([], s) else none
with_first sep c s (some (x, y)) = some (c ∷ x, y)

unfoldable pub rsplit_once : ℕ → Text → Option (Text × Text)
rsplit_once sep [] = none
rsplit_once sep (c ∷ s) = with_first sep c s (rsplit_once sep s)

abbrev pub is_empty : Text → Bool
is_empty [] = true
is_empty (c ∷ s) = false

-- the texts that are not empty
abbrev pub non_empty : List Text → List Text
non_empty [] = []
non_empty (l ∷ ls) = let rest = non_empty ls in if is_empty l then rest else l ∷ rest

-- the pieces between white space, the empty ones included
abbrev split_at_whitespace : Text → List Text
split_at_whitespace [] = [] ∷ []
split_at_whitespace (c ∷ s) =
    let later = split_at_whitespace s in if is_whitespace c then [] ∷ later else onto_first c later

unfoldable pub split_whitespace : Text → List Text
split_whitespace s = non_empty (split_at_whitespace s)
