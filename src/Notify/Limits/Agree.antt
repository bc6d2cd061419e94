-- ===== src/Notify/Limits/Agree.antt =====
-- Inside the basic plane the UTF-16 cutter is the character cutter, and every cut is a prefix.
use dotagent.Common.{
  ℕ, zero, suc, ◌+◌, ◌-◌, ◌<◌, ◌≡◌, refl, sym, ap, [], ◌∷◌, ◌++◌, ltb, arith, length, take, All,
  Bool-cases, inl, inr,
}
use dotagent.Common.Text.{Text}
use dotagent.Notify.Limits.{
  len_utf16, utf16_count, truncate_chars, take_units, take_utf16, truncate_utf16_with,
}

-- in the basic multilingual plane
abbrev pub InBasicPlane : ℕ → Type 0
InBasicPlane c = c < 65536

utf16_count-length : (s : Text) → All InBasicPlane s → utf16_count s ≡ length s
utf16_count-length [] h = refl
utf16_count-length (c ∷ s) h = ground (arith, utf16_count-length s h.1)

take_nil : (k : ℕ) → take {A = ℕ} k [] ≡ []
take_nil zero = refl
take_nil (suc k) = refl

take_units-take :
    (s : Text) (max_units used k : ℕ)
    → All InBasicPlane s
    → used + k ≡ max_units
    → take_units s max_units used ≡ take k s
unfolding take_units
take_units-take [] max_units used k h e = sym (take_nil k)
take_units-take (c ∷ s) max_units used zero h e = ground arith
take_units-take (c ∷ s) max_units used (suc k) h e =
    ground (arith, take_units-take s max_units (used + 1) k h.1)

-- On text of the basic multilingual plane the UTF-16 cutter, without a repair, cuts exactly as the
-- character cutter does, for every cap.
pub truncate_utf16_with-eq-truncate_chars :
    (text notice : Text) (cap : ℕ)
    → All InBasicPlane text
    → All InBasicPlane notice
    → truncate_utf16_with text cap notice (λ head. head) ≡ truncate_chars text cap notice
unfolding truncate_utf16_with truncate_chars take_utf16
truncate_utf16_with-eq-truncate_chars text notice cap h n =
    rw
      (
        utf16_count-length text h,
        utf16_count-length notice n,
        take_units-take text cap 0 cap h (omega arith),
        take_units-take text (cap - length notice) 0 (cap - length notice) h (omega arith),
      )
      refl

-- what `take_utf16` takes is a prefix
take_units-prefix :
    (s : Text) (max_units used : ℕ) → (rest : Text) × (take_units s max_units used ++ rest ≡ s)
unfolding take_units
take_units-prefix [] max_units used = ([], refl)
take_units-prefix (c ∷ s) max_units used =
    let (rest, e) = take_units-prefix s max_units (used + len_utf16 c) in
    elim (Bool-cases (ltb max_units (used + len_utf16 c))) [
      | inl b ↦ (c ∷ s, rw b refl)
      | inr b ↦ (rest, rw b (ap (λ t. c ∷ t) e))
    ]

pub take_utf16-prefix : (s : Text) (n : ℕ) → (rest : Text) × (take_utf16 s n ++ rest ≡ s)
unfolding take_utf16
take_utf16-prefix s n = take_units-prefix s n 0
