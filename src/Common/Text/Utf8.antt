-- ===== src/Common/Text/Utf8.antt =====
-- `as_bytes` and `str::from_utf8`: a text and its bytes.
use Prim.Native.Nat.{ℕ, zero, suc, ◌+◌, ◌-◌, ◌*◌, ◌/◌, ◌%◌}
use mathlib.Core.Path.{◌≡◌, refl}
use mathlib.Core.Logic.{inl, inr}
use mathlib.Core.Bool.{Bool, true, ◌&&◌, ◌||◌}
use mathlib.Core.Option.{Option, none, some}
use mathlib.Core.List.{List, [], ◌∷◌}
use native.Mathlib.Omega.{arith}
use dotagent.Common.Lists.{All}
use dotagent.Common.Tests.{ltb, leb, if◌then◌else◌, Bool-cases}
use dotagent.Common.Text.{Text}

-- a Unicode scalar value
abbrev pub is_scalar : ℕ → Bool
is_scalar c = ltb c 55296 || (leb 57344 c && ltb c 1114112)

-- one character, before the bytes that follow
unfoldable pub utf8_before : ℕ → List ℕ → List ℕ
utf8_before c rest =
    if ltb c 128
    then c ∷ rest
    else (if ltb c 2048
        then (192 + c / 64) ∷ (128 + c % 64) ∷ rest
        else (if ltb c 65536
            then (224 + c / 4096) ∷ (128 + c / 64 % 64) ∷ (128 + c % 64) ∷ rest
            else (240 + c / 262144)
              ∷ (128 + c / 4096 % 64)
              ∷ (128 + c / 64 % 64)
              ∷ (128 + c % 64)
              ∷ rest))

unfoldable pub as_bytes : Text → List ℕ
unfolding utf8_before
as_bytes [] = []
as_bytes (c ∷ s) = utf8_before c (as_bytes s)

abbrev onto : ℕ → Option Text → Option Text
onto c none = none
onto c (some s) = some (c ∷ s)

-- how many bytes follow the first one, what the first one holds, and the least value of that length
abbrev follow : ℕ → ℕ × ℕ × ℕ
follow b =
    if leb b 223
    then (1, b - 192, 128)
    else (if leb b 239 then (2, b - 224, 2048) else (3, b - 240, 65536))

-- `need` bytes are missing of a character that holds `acc` so far
from_utf8_within : ℕ → ℕ → ℕ → List ℕ → Option Text
from_utf8_within zero acc least [] = some []
from_utf8_within (suc need) acc least [] = none
from_utf8_within zero acc least (b ∷ s) =
    let ascii = onto b (from_utf8_within zero 0 0 s) in
    let longer = from_utf8_within (follow b).0 (follow b).1 (follow b).2 s in
    if ltb b 128 then ascii else (if leb 194 b && leb b 244 then longer else none)
from_utf8_within (suc zero) acc least (b ∷ s) =
    let c = acc * 64 + (b - 128) in
    let done = onto c (from_utf8_within zero 0 0 s) in
    if leb 128 b && leb b 191 && leb least c && is_scalar c then done else none
from_utf8_within (suc (suc need)) acc least (b ∷ s) =
    let longer = from_utf8_within (suc need) (acc * 64 + (b - 128)) least s in
    if leb 128 b && leb b 191 then longer else none

unfoldable pub from_utf8 : List ℕ → Option Text
unfolding from_utf8_within
from_utf8 bytes = from_utf8_within zero 0 0 bytes

from_utf8-before :
    (c : ℕ) (rest : List ℕ)
    → is_scalar c ≡ true
    → from_utf8 (utf8_before c rest) ≡ onto c (from_utf8 rest)
unfolding from_utf8 utf8_before
from_utf8-before c rest h = elim (Bool-cases (ltb c 128)) [
  | inl a ↦ rw (a, a) refl
  | inr a ↦ elim (Bool-cases (ltb c 2048)) [
    | inl b ↦ rw (a, b) (ground arith)
    | inr b ↦ elim (Bool-cases (ltb c 65536)) [
      | inl d ↦ rw (a, b, d) (ground arith)
      | inr d ↦ rw (a, b, d) (ground arith)
    ]
  ]
]

-- a text is read back from its bytes
pub from_utf8-as_bytes :
    (s : Text) → All (λ c. is_scalar c ≡ true) s → from_utf8 (as_bytes s) ≡ some s
unfolding as_bytes
from_utf8-as_bytes [] h = unfold from_utf8 in refl
from_utf8-as_bytes (c ∷ s) h =
    rw (from_utf8-before c (as_bytes s) h.0, from_utf8-as_bytes s h.1) refl
