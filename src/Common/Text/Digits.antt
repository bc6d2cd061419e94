-- ===== src/Common/Text/Digits.antt =====
-- Printed numbers are read back, and a separator splits a text in one way.
use Prim.Native.Nat.{ℕ, zero, suc, ◌+◌, ◌-◌, ◌*◌, ◌/◌, ◌%◌, ◌<◌}
use mathlib.Core.Path.{◌≡◌, refl, sym, ap, ◌∙◌}
use mathlib.Core.Logic.{◌⊎◌, inl, inr}
use mathlib.Core.Bool.{Bool, true, false, ◌&&◌}
use mathlib.Core.List.{[], ◌∷◌, ◌++◌}
use native.Mathlib.Omega.{arith}
use dotagent.Common.Int.{ℤ, pos, negsuc}
use dotagent.Common.Lists.{any, all, length}
use dotagent.Common.Tests.{leb, ltb, ◌==◌, Bool-cases, Option-cases}
use mathlib.Core.Option.{none, some}
use dotagent.Common.Text.Lines.{rsplit_once}
use dotagent.Common.Text.{Text, digits_from, decimal, show_ℤ, byte_len}

-- the number that a text of digits stands for, after `acc`
value : Text → ℕ → ℕ
value [] acc = acc
value (c ∷ s) acc = value s (acc * 10 + (c - b'0'))

value-digits_from :
    (fuel n : ℕ) (rest : Text) → n < fuel → value (digits_from fuel n rest) 0 ≡ value rest n
unfolding value
value-digits_from zero n rest h = absurd (omega arith)
value-digits_from (suc fuel) n rest h =
    ground (arith, value-digits_from fuel (n / 10) ((b'0' + n % 10) ∷ rest))

value-decimal : (n : ℕ) → value (decimal n) 0 ≡ n
unfolding value decimal
value-decimal n = value-digits_from (suc n) n [] (omega arith)

pub decimal_inj : (m n : ℕ) → decimal m ≡ decimal n → m ≡ n
decimal_inj m n e = sym (value-decimal m) ∙ ap (λ s. value s 0) e ∙ value-decimal n

-- does the character occur?
abbrev pub has : ℕ → Text → Bool
has c s = any (λ d. d == c) s

-- a number is printed in digits
has-digits_from :
    (c fuel n : ℕ) (rest : Text)
    → (c < b'0') ⊎ (b'9' < c)
    → has c rest ≡ false
    → has c (digits_from fuel n rest) ≡ false
has-digits_from c zero n rest below h = h
has-digits_from c (suc fuel) n rest below h =
    ground (arith, has-digits_from c fuel (n / 10) ((b'0' + n % 10) ∷ rest))

pub has-decimal : (c n : ℕ) → (c < b'0') ⊎ (b'9' < c) → has c (decimal n) ≡ false
unfolding decimal
has-decimal c n h = has-digits_from c (suc n) n [] h refl

pub show_ℤ_inj : (i j : ℤ) → show_ℤ i ≡ show_ℤ j → i ≡ j
show_ℤ_inj (pos m) (pos n) e = ap (λ k. pos k) (decimal_inj m n e)
show_ℤ_inj (pos m) (negsuc n) e = ground (arith, has-decimal b'-' m (inl (omega arith)), e)
show_ℤ_inj (negsuc m) (pos n) e = ground (arith, has-decimal b'-' n (inl (omega arith)), e)
show_ℤ_inj (negsuc m) (negsuc n) e = ground (arith, decimal_inj (suc m) (suc n), e)

-- before its first separator a text splits in one way
pub split_first :
    (c : ℕ) (a b x y : Text)
    → has c a ≡ false
    → has c b ≡ false
    → a ++ (c ∷ x) ≡ b ++ (c ∷ y)
    → (a ≡ b) × (x ≡ y)
split_first c [] [] x y p q h = ground arith
split_first c [] (e ∷ b) x y p q h = ground arith
split_first c (d ∷ a) [] x y p q h = ground arith
split_first c (d ∷ a) (e ∷ b) x y p q h = ground (arith, split_first c a b x y)

-- and after a number of bytes
pub split_bytes : (a b x y : Text) → byte_len a ≡ byte_len b → a ++ x ≡ b ++ y → (a ≡ b) × (x ≡ y)
split_bytes [] [] x y l h = (refl, h)
split_bytes [] (e ∷ b) x y l h = ground arith
split_bytes (d ∷ a) [] x y l h = ground arith
split_bytes (d ∷ a) (e ∷ b) x y l h = ground (arith, split_bytes a b x y)

-- a printed number is digits, one at least
digits_from-all :
    (fuel n : ℕ) (rest : Text)
    → all (λ c. leb b'0' c && leb c b'9') rest ≡ true
    → all (λ c. leb b'0' c && leb c b'9') (digits_from fuel n rest) ≡ true
digits_from-all zero n rest h = h
digits_from-all (suc fuel) n rest h =
    ground (arith, digits_from-all fuel (n / 10) ((b'0' + n % 10) ∷ rest))

pub decimal-all : (n : ℕ) → all (λ c. leb b'0' c && leb c b'9') (decimal n) ≡ true
unfolding decimal
decimal-all n = digits_from-all (suc n) n [] refl

digits_from-cons :
    (fuel n d : ℕ) (rest : Text) → (c : ℕ) × (s : Text) × (digits_from fuel n (d ∷ rest) ≡ c ∷ s)
digits_from-cons zero n d rest = (d, rest, refl)
digits_from-cons (suc fuel) n d rest = elim (Bool-cases (ltb n 10)) [
  | inl b ↦ (b'0' + n % 10, d ∷ rest, rw b refl)
  | inr b ↦
      let (c, s, e) = digits_from-cons fuel (n / 10) (b'0' + n % 10) (d ∷ rest) in (c, s, rw b e)
]

pub decimal-cons : (n : ℕ) → (c : ℕ) × (s : Text) × (decimal n ≡ c ∷ s)
unfolding decimal
decimal-cons n = elim (Bool-cases (ltb n 10)) [
  | inl b ↦ (b'0' + n % 10, [], rw b refl)
  | inr b ↦ let (c, s, e) = digits_from-cons n (n / 10) (b'0' + n % 10) [] in (c, s, rw b e)
]

pub rsplit_once-none : (c : ℕ) (p : Text) → rsplit_once c p ≡ none → has c p ≡ false
unfolding rsplit_once
rsplit_once-none c [] e = refl
rsplit_once-none c (d ∷ s) e = elim (Option-cases (rsplit_once c s)) [
  | inl n ↦ ground (arith, rsplit_once-none c s n, n)
  | inr (xy, s_e) ↦ ground (arith, s_e)
]

-- at its last separator a text splits so
pub rsplit_once-some :
    (c : ℕ) (p x y : Text)
    → rsplit_once c p ≡ some (x, y)
    → (p ≡ x ++ (c ∷ y)) × (has c y ≡ false) × (length x < length p)
unfolding rsplit_once
rsplit_once-some c [] x y e = cc
rsplit_once-some c (d ∷ s) x y e = elim (Option-cases (rsplit_once c s)) [
  | inl n ↦ ground (arith, rsplit_once-none c s n, n)
  | inr (xy, s_e) ↦ ground (arith, s_e, rsplit_once-some c s xy.0 xy.1)
]
