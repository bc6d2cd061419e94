-- ===== src/Slug/Safe.antt =====
-- Every slug is a safe part of a file's name.
use dotagent.Common.{
  ℕ, zero, suc, ◌≤◌, ◌<◌, ◌≡◌, ◌≢◌, refl, ap, ◌++◌, true, false, List, [], ◌∷◌, ◌==◌, length, all,
  arith, Bool-cases, inl, inr,
}
use dotagent.Common.Text.{Text, is_ascii_alphanumeric}
use dotagent.Slug.{
  underscore, trim_start_of, trim_before, trim_end_of, is_safe, sanitize, has_pair, replace_pairs,
  squeeze_rounds, or_default, finish_slug, slug_of_parts, slug_from_args,
}

safe_underscore : is_safe underscore ≡ true
unfolding is_safe is_ascii_alphanumeric
safe_underscore = refl

sanitize-safe : (s : Text) → all is_safe (sanitize s) ≡ true
sanitize-safe [] = refl
sanitize-safe (c ∷ s) = elim (Bool-cases (is_safe c)) [
  | inl b ↦ rw (b, b) (sanitize-safe s)
  | inr b ↦ rw (b, safe_underscore) (sanitize-safe s)
]

replace-le : (s : Text) → length (replace_pairs s) ≤ length s
unfolding replace_pairs
replace-le [] = omega arith
replace-le (c ∷ []) = omega arith
replace-le (c ∷ d ∷ s) = ground (arith, replace-le s, replace-le (d ∷ s))

replace-lt : (s : Text) → has_pair s ≡ true → length (replace_pairs s) < length s
unfolding replace_pairs has_pair
replace-lt [] h = cc
replace-lt (c ∷ []) h = cc
replace-lt (c ∷ d ∷ s) h = ground (arith, replace-le s, replace-lt (d ∷ s))

replace-safe : (s : Text) → all is_safe s ≡ true → all is_safe (replace_pairs s) ≡ true
unfolding replace_pairs
replace-safe [] h = refl
replace-safe (c ∷ []) h = h
replace-safe (c ∷ d ∷ s) h = ground (arith, safe_underscore, replace-safe s, replace-safe (d ∷ s))

squeeze-safe : (n : ℕ) (s : Text) → all is_safe s ≡ true → all is_safe (squeeze_rounds n s) ≡ true
unfolding squeeze_rounds
squeeze-safe zero s h = h
squeeze-safe (suc n) s h = ground (arith, replace-safe s, squeeze-safe n (replace_pairs s))

squeeze-no_pair : (n : ℕ) (s : Text) → length s ≤ n → has_pair (squeeze_rounds n s) ≡ false
unfolding squeeze_rounds has_pair
squeeze-no_pair zero [] le = refl
squeeze-no_pair zero (c ∷ s) le = absurd (omega arith)
squeeze-no_pair (suc n) s le = ground (arith, replace-lt s, squeeze-no_pair n (replace_pairs s))

-- a text that keeps its good parts when it is trimmed
abbrev IsGood : Text → Type 0
IsGood s = (all is_safe s ≡ true) × (has_pair s ≡ false)

trim_start-IsGood : (s : Text) → IsGood s → IsGood (trim_start_of underscore s)
unfolding trim_start_of has_pair
trim_start-IsGood [] h = h
trim_start-IsGood (c ∷ []) h = ground arith
trim_start-IsGood (c ∷ d ∷ s) h = ground (arith, trim_start-IsGood (d ∷ s))

prefix-IsGood : (s t : Text) → IsGood (s ++ t) → IsGood s
unfolding has_pair
prefix-IsGood [] t h = (refl, refl)
prefix-IsGood (c ∷ []) t h = (ground arith, refl)
prefix-IsGood (c ∷ d ∷ s) t h = ground (arith, prefix-IsGood (d ∷ s) t)

trim_before-prefix :
    (c : ℕ) (t r s : Text)
    → t ++ r ≡ s
    → (rest : Text) × (trim_before underscore c t ++ rest ≡ c ∷ s)
trim_before-prefix c (d ∷ t) r s e = (r, ap (λ (x : Text). c ∷ x) e)
trim_before-prefix c [] r s e = elim (Bool-cases (c == underscore)) [
  | inl b ↦ (c ∷ s, rw b refl)
  | inr b ↦ (s, rw b refl)
]

trim_end-prefix : (s : Text) → (rest : Text) × (trim_end_of underscore s ++ rest ≡ s)
unfolding trim_end_of
trim_end-prefix [] = ([], refl)
trim_end-prefix (c ∷ s) =
    let (r, e) = trim_end-prefix s in trim_before-prefix c (trim_end_of underscore s) r s e

trim_end-IsGood : (s : Text) → IsGood s → IsGood (trim_end_of underscore s)
trim_end-IsGood s h =
    let (rest, e) = trim_end-prefix s in prefix-IsGood (trim_end_of underscore s) rest (rw e h)

-- not empty, of safe characters only, and without two underscores in a row
abbrev pub IsSlug : Text → Type 0
IsSlug s = (s ≢ []) × (all is_safe s ≡ true) × (has_pair s ≡ false)

or_default-IsSlug : (s : Text) → IsGood s → IsSlug (or_default s)
unfolding is_safe is_ascii_alphanumeric has_pair
or_default-IsSlug [] h = ((λ e. cc e), refl, refl)
or_default-IsSlug (c ∷ s) h = ((λ e. cc e), h.0, h.1)

finish_slug-IsSlug : (s : Text) → all is_safe s ≡ true → IsSlug (finish_slug s)
unfolding finish_slug
finish_slug-IsSlug s h =
    let squeezed = squeeze_rounds (length s) s in
    let good : IsGood squeezed =
      (squeeze-safe (length s) s h, squeeze-no_pair (length s) s (omega arith)) in
    or_default-IsSlug _ (trim_end-IsGood _ (trim_start-IsGood squeezed good))

slug_of_parts-IsSlug :
    (to_lowercase : Text → Text) (parts : List Text) → IsSlug (slug_of_parts to_lowercase parts)
unfolding has_pair
slug_of_parts-IsSlug to_lowercase [] = or_default-IsSlug [] (refl, refl)
slug_of_parts-IsSlug to_lowercase (p ∷ parts) = finish_slug-IsSlug _ (sanitize-safe _)

-- Whatever the arguments of a run, and whatever their lower case is, the slug is not empty, holds
-- only ASCII letters, digits, `_` and `-`, and no two underscores in a row.
pub slug_from_args-IsSlug :
    (to_lowercase : Text → Text) (args : List Text) → IsSlug (slug_from_args to_lowercase args)
unfolding slug_from_args
slug_from_args-IsSlug to_lowercase args = slug_of_parts-IsSlug to_lowercase _
