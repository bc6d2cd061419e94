-- ===== src/Slug.antt =====
-- `slug_from_args` of crates/dotagent-state/src/lib.rs: the part of a file's name that stands for
-- the arguments of a run. The lower case of a text is the argument `to_lowercase`.
pub mod Safe
use dotagent.Common.{
  ℕ, zero, suc, Bool, true, false, not, ◌&&◌, ◌||◌, List, [], ◌∷◌, map, ◌==◌, if◌then◌else◌, length,
  all,
}
use dotagent.Common.Text.{Text, codes, is_ascii_alphanumeric}
use dotagent.Common.Text.Lines.{join_with, non_empty}

abbrev pub underscore : ℕ
underscore = b'_'

-- `trim_start_matches` of one character
trim_start_of : ℕ → Text → Text
trim_start_of c [] = []
trim_start_of c (d ∷ s) = let rest = trim_start_of c s in if d == c then rest else d ∷ s

-- the text without the character at its end, before a rest that is trimmed already
abbrev trim_before : ℕ → ℕ → Text → Text
trim_before c d [] = if d == c then [] else d ∷ []
trim_before c d (e ∷ s) = d ∷ e ∷ s

trim_end_of : ℕ → Text → Text
trim_end_of c [] = []
trim_end_of c (d ∷ s) = trim_before c d (trim_end_of c s)

-- the characters that are kept
unfoldable pub is_safe : ℕ → Bool
is_safe c = is_ascii_alphanumeric c || c == underscore || c == b'-'

abbrev sanitize : Text → Text
sanitize s = map (λ c. if is_safe c then c else underscore) s

-- `contains("__")`
unfoldable pub has_pair : Text → Bool
has_pair [] = false
has_pair (c ∷ []) = false
has_pair (c ∷ d ∷ s) = c == underscore && d == underscore || has_pair (d ∷ s)

-- `replace("__", "_")`
replace_pairs : Text → Text
replace_pairs [] = []
replace_pairs (c ∷ []) = c ∷ []
replace_pairs (c ∷ d ∷ s) =
    let after_pair = replace_pairs s in
    let later = replace_pairs (d ∷ s) in
    if c == underscore && d == underscore then underscore ∷ after_pair else c ∷ later

-- The loop: each round makes the text shorter, so its length bounds the rounds.
squeeze_rounds : ℕ → Text → Text
unfolding has_pair replace_pairs
squeeze_rounds zero s = s
squeeze_rounds (suc rounds) s =
    let next = squeeze_rounds rounds (replace_pairs s) in if has_pair s then next else s

abbrev or_default : Text → Text
or_default [] = codes "default"
or_default (c ∷ s) = c ∷ s

-- the loop and the trim
finish_slug : Text → Text
unfolding squeeze_rounds trim_start_of trim_end_of
finish_slug s =
    or_default (trim_end_of underscore (trim_start_of underscore (squeeze_rounds (length s) s)))

abbrev slug_of_parts : (Text → Text) → List Text → Text
slug_of_parts to_lowercase [] = codes "default"
slug_of_parts to_lowercase (p ∷ parts) =
    finish_slug (sanitize (to_lowercase (join_with (codes "_") (p ∷ parts))))

unfoldable pub slug_from_args : (Text → Text) → List Text → Text
unfolding finish_slug trim_start_of is_safe
slug_from_args to_lowercase args =
    slug_of_parts to_lowercase (non_empty (map (trim_start_of b'-') args))
