-- ===== src/Common/Text.antt =====
-- Text: a `str` is the list of its Unicode scalar values.
pub mod Digits
pub mod Lines
pub mod Utf8
use Prim.Native.Nat.{ℕ, zero, suc, ◌+◌, ◌/◌, ◌%◌}
use Prim.Native.Char.{code}
use Prim.Native.String.{String}
use mathlib.Core.Path.{◌≡◌, refl}
use mathlib.Core.Logic.{◌↔◌}
use mathlib.Core.Bool.{Bool, true, false, ◌&&◌, ◌||◌}
use mathlib.Core.Option.{Option, none, some}
use mathlib.Core.List.{List, [], ◌∷◌, ◌++◌}
use native.Mathlib.Omega.{arith}
use dotagent.Common.Int.{ℤ, pos, negsuc}
use dotagent.Common.Tests.{ltb, leb, ◌==◌, if◌then◌else◌}

abbrev pub Text : Type 0
Text = List ℕ

-- a string literal of the source
abbrev pub codes : String → Text
codes String.[] = []
codes (String.◌∷◌ c s) = code c ∷ codes s

abbrev pub text_eq : Text → Text → Bool
text_eq [] [] = true
text_eq (c ∷ s) (d ∷ t) = c == d && text_eq s t
text_eq _ _ = false

pub text_eq_iff : (s t : Text) → (text_eq s t ≡ true) ↔ (s ≡ t)
text_eq_iff [] [] = (λ _. refl, λ _. refl)
text_eq_iff [] (d ∷ t) = ((λ h. cc), (λ h. cc))
text_eq_iff (c ∷ s) [] = ((λ h. cc), (λ h. cc))
text_eq_iff (c ∷ s) (d ∷ t) = ground (arith, text_eq_iff s t)

pub text_eq_comm : (s t : Text) → text_eq s t ≡ text_eq t s
text_eq_comm [] [] = refl
text_eq_comm [] (d ∷ t) = refl
text_eq_comm (c ∷ s) [] = refl
text_eq_comm (c ∷ s) (d ∷ t) = ground (arith, text_eq_comm s t)

-- `strip_prefix`
abbrev pub strip_prefix : Text → Text → Option Text
strip_prefix [] t = some t
strip_prefix (c ∷ s) [] = none
strip_prefix (c ∷ s) (d ∷ t) = let rest = strip_prefix s t in if c == d then rest else none

abbrev pub starts_with : Text → Text → Bool
starts_with [] t = true
starts_with (c ∷ s) [] = false
starts_with (c ∷ s) (d ∷ t) = c == d && starts_with s t

-- the decimal digits of a number, as `format!("{n}")` prints it
abbrev digits_from : ℕ → ℕ → Text → Text
digits_from zero n rest = rest
digits_from (suc fuel) n rest =
    let out = (b'0' + n % 10) ∷ rest in
    let more = digits_from fuel (n / 10) out in if ltb n 10 then out else more

unfoldable pub decimal : ℕ → Text
decimal n = digits_from (suc n) n []

-- an integer, as `{n}` prints it
abbrev pub show_ℤ : ℤ → Text
show_ℤ (pos n) = decimal n
show_ℤ (negsuc n) = b'-' ∷ decimal (suc n)

-- `char::len_utf8`, and `len()` of a `str`
abbrev pub len_utf8 : ℕ → ℕ
len_utf8 c = if ltb c 128 then 1 else (if ltb c 2048 then 2 else (if ltb c 65536 then 3 else 4))

abbrev pub byte_len : Text → ℕ
byte_len [] = 0
byte_len (c ∷ s) = len_utf8 c + byte_len s

pub byte_len-append : (s t : Text) → byte_len (s ++ t) ≡ byte_len s + byte_len t
byte_len-append [] t = omega arith
byte_len-append (c ∷ s) t = omega (arith, byte_len-append s t)

-- the White_Space property, which `trim` and `split_whitespace` read
unfoldable pub is_whitespace : ℕ → Bool
is_whitespace c =
    leb 9 c && leb c 13
    || c == 32
    || c == 133
    || c == 160
    || c == 5760
    || leb 8192 c && leb c 8202
    || c == 8232
    || c == 8233
    || c == 8239
    || c == 8287
    || c == 12288

unfoldable pub is_ascii_alphanumeric : ℕ → Bool
is_ascii_alphanumeric c =
    leb b'0' c && leb c b'9' || leb b'A' c && leb c b'Z' || leb b'a' c && leb c b'z'

unfoldable pub trim_start : Text → Text
unfolding is_whitespace
trim_start [] = []
trim_start (c ∷ s) = let rest = trim_start s in if is_whitespace c then rest else c ∷ s

-- `trim_end`: what is left when the white space at the end goes
unfoldable pub trim_end : Text → Text
unfolding is_whitespace
trim_end [] = []
trim_end (c ∷ s) = elim (trim_end s) [
  | [] ↦ if is_whitespace c then [] else c ∷ []
  | d ∷ t ↦ c ∷ d ∷ t
]

unfoldable pub trim : Text → Text
unfolding trim_start trim_end
trim s = trim_end (trim_start s)
