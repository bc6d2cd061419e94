-- ===== src/Audit/Names/Fresh.antt =====
-- A rotation finds a name that is free and that counts as a segment's.
use dotagent.Common.{
  ℕ, zero, suc, ◌<◌, ◌≡◌, refl, sym, ◌∙◌, ◌⊎◌, inl, inr, true, false, none, some, [], ◌∷◌, ◌++◌,
  append_assoc, arith, ◌==◌, if◌then◌else◌, all, Bool-cases, Option-cases, some_inj,
}
use dotagent.Common.Text.{Text, codes, strip_prefix, text_eq, text_eq_iff, decimal}
use dotagent.Common.Text.Digits.{has, decimal-all, decimal-cons}
use dotagent.Common.Text.Lines.{split_once}
use dotagent.Common.Table.{get}
use dotagent.Audit.Names.{
  Directory, is_ascii_digit, has_dots, stamp_from, is_stamp, is_segment_name, candidate, free_from,
  next_segment_name, newest_segment, segments, is_dup, is_segment_suffix,
}

has-append : (c : ℕ) (s t : Text) → has c s ≡ false → has c t ≡ false → has c (s ++ t) ≡ false
has-append c [] t p q = q
has-append c (d ∷ s) t p q = ground (arith, has-append c s t)

has_dots-none : (s : Text) → has b'.' s ≡ false → has_dots s ≡ false
has_dots-none [] h = refl
has_dots-none (c ∷ []) h = refl
has_dots-none (c ∷ d ∷ s) h = ground (arith, has_dots-none (d ∷ s))

has_dots-append :
    (s t : Text)
    → has_dots (s ++ codes ".") ≡ false
    → has b'.' t ≡ false
    → has_dots (s ++ codes "." ++ t) ≡ false
has_dots-append [] [] p q = refl
has_dots-append [] (d ∷ t) p q = ground (arith, has_dots-none (d ∷ t))
has_dots-append (c ∷ []) t p q = ground (arith, has_dots-append [] t)
has_dots-append (c ∷ d ∷ s) t p q = ground (arith, has_dots-append (d ∷ s) t)

strip_prefix-append : (s t : Text) → strip_prefix s (s ++ t) ≡ some t
strip_prefix-append [] t = refl
strip_prefix-append (c ∷ s) t = ground (arith, strip_prefix-append s t)

split_once-none : (c : ℕ) (s : Text) → has c s ≡ false → split_once c s ≡ none
split_once-none c [] h = refl
split_once-none c (d ∷ s) h = ground (arith, split_once-none c s)

split_once-append :
    (c : ℕ) (s t : Text) → has c s ≡ false → split_once c (s ++ (c ∷ t)) ≡ some (s, t)
split_once-append c [] t h = ground arith
split_once-append c (d ∷ s) t h = ground (arith, split_once-append c s t)

-- a time stamp holds only digits and a `T`
has-stamp_from :
    (c i : ℕ) (s : Text) → (c < b'0') ⊎ (b'T' < c) → stamp_from i s ≡ true → has c s ≡ false
has-stamp_from c i [] out h = refl
has-stamp_from c i (d ∷ s) out h = ground (arith, has-stamp_from c (suc i) s)

has-digits :
    (c : ℕ) (s : Text) → (c < b'0') ⊎ (b'T' < c) → all is_ascii_digit s ≡ true → has c s ≡ false
has-digits c [] out h = refl
has-digits c (d ∷ s) out h = ground (arith, has-digits c s)

-- a name for the log's file: no separator, and no two dots even with one more
pub record IsStem (stem : Text) : Type 0 where
  pub no_slash : has b'/' stem ≡ false
  pub no_backslash : has b'\\' stem ≡ false
  pub no_dots : has_dots (stem ++ codes ".") ≡ false

-- what follows the stem and a dot
tail_of : Text → ℕ → Text
tail_of stamp n = if n == 0 then stamp else stamp ++ (b'-' ∷ decimal n)

candidate-tail_of :
    (stem stamp : Text) (n : ℕ) → candidate stem stamp n ≡ stem ++ codes "." ++ tail_of stamp n
unfolding tail_of
candidate-tail_of stem stamp n = elim (Bool-cases (n == 0)) [
  | inl b ↦ rw b refl
  | inr b ↦ rw b (simp append_assoc)
]

is_dup-decimal : (n : ℕ) → is_dup (decimal n) ≡ true
is_dup-decimal n = let (c, s, e) = decimal-cons n in ground (arith, decimal-all n, e)

is_suffix-tail_of :
    (stamp : Text) (n : ℕ)
    → is_stamp stamp ≡ true
    → is_segment_suffix (some (tail_of stamp n)) ≡ true
unfolding tail_of
is_suffix-tail_of stamp n h =
    let no_dash : has b'-' stamp ≡ false =
      has-stamp_from b'-' 0 stamp (inl (omega arith)) (ground (arith, h)) in
    elim (Bool-cases (n == 0)) [
      | inl b ↦ rw (b, split_once-none b'-' stamp no_dash) h
      | inr b ↦ rw (b, split_once-append b'-' stamp (decimal n) no_dash, is_dup-decimal n) h
    ]

-- a character that neither digits nor a `T` are
has-tail_of :
    (c : ℕ) (stamp : Text) (n : ℕ)
    → (c < b'-') ⊎ ((c ≡ b'.') ⊎ ((c ≡ b'/') ⊎ (b'T' < c)))
    → is_stamp stamp ≡ true
    → has c (tail_of stamp n) ≡ false
unfolding tail_of
has-tail_of c stamp n out h =
    let apart : (c < b'0') ⊎ (b'T' < c) = elim out [
      | inl p ↦ inl (omega arith)
      | inr (inl p) ↦ inl (omega arith)
      | inr (inr (inl p)) ↦ inl (omega arith)
      | inr (inr (inr p)) ↦ inr p
    ] in
    let in_stamp = has-stamp_from c 0 stamp apart (ground (arith, h)) in
    let in_digits = has-digits c (decimal n) apart (decimal-all n) in
    elim (Bool-cases (n == 0)) [
      | inl b ↦ rw b in_stamp
      | inr b ↦ rw b (has-append c stamp (b'-' ∷ decimal n) in_stamp (ground (arith, in_digits)))
    ]

is_segment_name-candidate :
    {stem : Text} (stamp : Text) (n : ℕ)
    → IsStem stem
    → is_stamp stamp ≡ true
    → is_segment_name stem (candidate stem stamp n) ≡ true
unfolding is_segment_name
is_segment_name-candidate {stem} stamp n s h =
    let tail = tail_of stamp n in
    let dotted : (c : ℕ)
        → has c stem ≡ false
        → (c == b'.') ≡ false
        → has c (stem ++ codes ".") ≡ false =
      λ c p q. has-append c stem (codes ".") p (ground arith) in
    let slash =
      has-append b'/' (stem ++ codes ".") tail (dotted b'/' s.no_slash refl)
        (has-tail_of b'/' stamp n (inr (inr (inl refl))) h) in
    let backslash =
      has-append b'\\' (stem ++ codes ".") tail (dotted b'\\' s.no_backslash refl)
        (has-tail_of b'\\' stamp n (inr (inr (inr (omega arith)))) h) in
    let dots = has_dots-append stem tail s.no_dots (has-tail_of b'.' stamp n (inr (inl refl)) h) in
    rw
      (
        candidate-tail_of stem stamp n,
        slash,
        backslash,
        dots,
        strip_prefix-append (stem ++ codes ".") tail,
      )
      (is_suffix-tail_of stamp n h)

free_from-free :
    (more : ℕ) (stem stamp : Text) (n : ℕ) (dir : Directory) (name : Text)
    → free_from more stem stamp n dir ≡ some name
    → (k : ℕ) × (name ≡ candidate stem stamp k) × (get dir name ≡ none)
unfolding free_from
free_from-free zero stem stamp n dir name e = cc
free_from-free (suc more) stem stamp n dir name e =
    let this = candidate stem stamp n in
    elim (Option-cases (get dir this)) [
      | inl free ↦
          let same : name ≡ this = sym (some_inj (sym (rw free refl) ∙ e)) in
          (n, same, rw same free)
      | inr (file, taken) ↦
          free_from-free more stem stamp (suc n) dir name (sym (rw taken refl) ∙ e)
    ]

-- the name of a rotation is free, and a segment's name
pub next_segment_name-free :
    {stem : Text} (stamp : Text) (dir : Directory) (name : Text)
    → IsStem stem
    → is_stamp stamp ≡ true
    → next_segment_name stem stamp dir ≡ some name
    → (get dir name ≡ none) × (is_segment_name stem name ≡ true)
unfolding next_segment_name
next_segment_name-free {stem} stamp dir name s h e =
    let (k, same, free) = free_from-free 1000 stem stamp 0 dir name e in
    (free, rw same (is_segment_name-candidate stamp k s h))

strip_prefix-shorter : (s : Text) → strip_prefix (s ++ codes ".") s ≡ none
strip_prefix-shorter [] = refl
strip_prefix-shorter (c ∷ s) = ground (arith, strip_prefix-shorter s)

-- the live file is no segment
pub stem-ne-segment :
    (stem name : Text) → is_segment_name stem name ≡ true → text_eq stem name ≡ false
unfolding is_segment_name
stem-ne-segment stem name h = elim (Bool-cases (text_eq stem name)) [
  | inr b ↦ b
  | inl b ↦
      let same : name ≡ stem = sym ((text_eq_iff stem name).0 b) in
      absurd (ground (arith, (rw same at h), strip_prefix-shorter stem))
]

pub newest_segment-IsSegment :
    (stem : Text) (dir : Directory) (name : Text)
    → newest_segment stem dir ≡ some name
    → is_segment_name stem name ≡ true
unfolding newest_segment segments
newest_segment-IsSegment stem [] name e = cc
newest_segment-IsSegment stem ((j, file) ∷ dir) name e =
    elim (Bool-cases (is_segment_name stem j)) [
      | inr b ↦ newest_segment-IsSegment stem dir name (rw b at e)
      | inl b ↦ elim (Option-cases (newest_segment stem dir)) [
        | inl no_later ↦
            let this : some j ≡ some name = rw no_later at (rw b at e) in rw (sym (some_inj this)) b
        | inr (later, found) ↦
            let this : some later ≡ some name = rw found at (rw b at e) in
            newest_segment-IsSegment stem dir name (found ∙ this)
      ]
    ]
