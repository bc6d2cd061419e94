-- ===== src/Common/Table/Ordered.antt =====
-- The order of the keys of a table: each key is below all later ones, so none occurs twice.
use mathlib.Core.Path.{◌≡◌, refl}
use mathlib.Core.Bool.{Bool, true, false}
use mathlib.Core.Logic.{inl, inr}
use mathlib.Core.Option.{none}
use mathlib.Core.List.{[], ◌∷◌}
use native.Mathlib.Omega.{arith}
use dotagent.Common.Tests.{Bool-cases}
use dotagent.Common.Text.{Text, text_eq, text_eq_iff}
use dotagent.Common.Table.{Table, text_ltb, get, insert, retain_keys}

text_ltb_trans : (a b c : Text) → text_ltb a b ≡ true → text_ltb b c ≡ true → text_ltb a c ≡ true
text_ltb_trans [] [] c p q = cc
text_ltb_trans [] (y ∷ b) [] p q = cc
text_ltb_trans [] (y ∷ b) (z ∷ c) p q = refl
text_ltb_trans (x ∷ a) [] c p q = cc
text_ltb_trans (x ∷ a) (y ∷ b) [] p q = cc
text_ltb_trans (x ∷ a) (y ∷ b) (z ∷ c) p q = ground (arith, text_ltb_trans a b c)

text_ltb-total : (a b : Text) → text_eq a b ≡ false → text_ltb b a ≡ false → text_ltb a b ≡ true
text_ltb-total [] [] p q = cc
text_ltb-total [] (y ∷ b) p q = refl
text_ltb-total (x ∷ a) [] p q = cc
text_ltb-total (x ∷ a) (y ∷ b) p q = ground (arith, text_ltb-total a b)

text_ltb-ne : (a b : Text) → text_ltb a b ≡ true → text_eq b a ≡ false
text_ltb-ne [] [] p = cc
text_ltb-ne [] (y ∷ b) p = refl
text_ltb-ne (x ∷ a) [] p = cc
text_ltb-ne (x ∷ a) (y ∷ b) p = ground (arith, text_ltb-ne a b)

module _ {ℓ} {V : Type ℓ} where
  -- every key of the table is above `k`
  abbrev pub Above : Text → Table V → Type 0
  Above k [] = Unit
  Above k ((j, v) ∷ m) = (text_ltb k j ≡ true) × Above k m

  abbrev pub IsOrdered : Table V → Type 0
  IsOrdered [] = Unit
  IsOrdered ((k, v) ∷ m) = Above k m × IsOrdered m

  Above-trans : (k j : Text) (m : Table V) → text_ltb k j ≡ true → Above j m → Above k m
  Above-trans k j [] lt h = tt
  Above-trans k j ((i, v) ∷ m) lt h = (text_ltb_trans k j i lt h.0, Above-trans k j m lt h.1)

  -- a key below all of a table is not in it
  pub get-Above : (k : Text) (m : Table V) → Above k m → get m k ≡ none
  unfolding get
  get-Above k [] h = refl
  get-Above k ((j, v) ∷ m) h = rw (text_ltb-ne k j h.0) (get-Above k m h.1)

  insert-Above :
      (i k : Text) (v : V) (m : Table V) → text_ltb i k ≡ true → Above i m → Above i (insert m k v)
  unfolding insert
  insert-Above i k v [] lt h = (lt, tt)
  insert-Above i k v ((j, w) ∷ m) lt h = elim (Bool-cases (text_eq j k)) [
    | inl e ↦ rw e (lt, h.1)
    | inr n ↦ elim (Bool-cases (text_ltb k j)) [
      | inl b ↦ rw (n, b) (lt, h)
      | inr b ↦ rw (n, b) (h.0, insert-Above i k v m lt h.1)
    ]
  ]

  pub insert-IsOrdered : (m : Table V) (k : Text) (v : V) → IsOrdered m → IsOrdered (insert m k v)
  unfolding insert
  insert-IsOrdered [] k v h = (tt, tt)
  insert-IsOrdered ((j, w) ∷ m) k v h = elim (Bool-cases (text_eq j k)) [
    | inl e ↦ rw e (rw ((text_eq_iff j k).0 e) at h)
    | inr n ↦ elim (Bool-cases (text_ltb k j)) [
      | inl b ↦ rw (n, b) ((b, Above-trans k j m b h.0), h)
      | inr b ↦
          rw (n, b) (insert-Above j k v m (text_ltb-total j k n b) h.0, insert-IsOrdered m k v h.1)
    ]
  ]

  retain_keys-Above :
      (p : Text → Bool) (k : Text) (m : Table V) → Above k m → Above k (retain_keys p m)
  unfolding retain_keys
  retain_keys-Above p k [] h = tt
  retain_keys-Above p k ((j, w) ∷ m) h = elim (Bool-cases (p j)) [
    | inl b ↦ rw b (h.0, retain_keys-Above p k m h.1)
    | inr b ↦ rw b (retain_keys-Above p k m h.1)
  ]

  pub retain_keys-IsOrdered :
      (p : Text → Bool) (m : Table V) → IsOrdered m → IsOrdered (retain_keys p m)
  unfolding retain_keys
  retain_keys-IsOrdered p [] h = tt
  retain_keys-IsOrdered p ((j, w) ∷ m) h = elim (Bool-cases (p j)) [
    | inl b ↦ rw b (retain_keys-Above p j m h.0, retain_keys-IsOrdered p m h.1)
    | inr b ↦ rw b (retain_keys-IsOrdered p m h.1)
  ]
