-- ===== src/Notify/Limits/Caps.antt =====
-- A message that was cut keeps its cap, in the unit that its service counts.
use dotagent.Common.{
  ℕ, zero, suc, ◌+◌, ◌-◌, ◌≤◌, ◌≡◌, refl, true, [], ◌∷◌, ◌++◌, min, arith, length, take,
  length-append, length-take, Bool-cases, inl, inr,
}
use dotagent.Common.Text.{Text, len_utf8, byte_len, byte_len-append}
use dotagent.Notify.Limits.{
  len_utf16, utf16_count, truncate_chars, take_units, take_utf16, truncate_utf16_with,
  is_char_boundary, slice_to, walk_back, cut_point, truncate_bytes,
}

utf16_count-append : (s t : Text) → utf16_count (s ++ t) ≡ utf16_count s + utf16_count t
utf16_count-append [] t = omega arith
utf16_count-append (c ∷ s) t = omega (arith, utf16_count-append s t)

take_units-le :
    (s : Text) (max_units used : ℕ)
    → used ≤ max_units
    → utf16_count (take_units s max_units used) + used ≤ max_units
unfolding take_units
take_units-le [] max_units used le = omega arith
take_units-le (c ∷ s) max_units used le =
    ground (arith, take_units-le s max_units (used + len_utf16 c))

take_utf16-le : (s : Text) (n : ℕ) → utf16_count (take_utf16 s n) ≤ n
unfolding take_utf16
take_utf16-le s n = omega (arith, take_units-le s n 0)

slice_to-le : (s : Text) (end : ℕ) → byte_len (slice_to s end) ≤ end
slice_to-le [] end = omega arith
slice_to-le (c ∷ s) end = ground (arith, slice_to-le s (end - len_utf8 c))

walk_back-le : (s : Text) (end : ℕ) → walk_back s end ≤ end
walk_back-le s zero = omega arith
walk_back-le s (suc end) = ground (arith, walk_back-le s end)

walk_back-boundary : (s : Text) (end : ℕ) → is_char_boundary s (walk_back s end) ≡ true
walk_back-boundary s zero = refl
walk_back-boundary s (suc end) = elim (Bool-cases (is_char_boundary s (suc end))) [
  | inl b ↦ rw (b, b) refl
  | inr b ↦ rw b (walk_back-boundary s end)
]

-- A text cut by characters has at most as many characters as its cap, whatever the notice.
pub truncate_chars-le :
    (text notice : Text) (max_chars : ℕ) → length (truncate_chars text max_chars notice) ≤ max_chars
unfolding truncate_chars
truncate_chars-le text notice max_chars = ground (
  arith,
  length-take max_chars text,
  length-take (max_chars - length notice) text,
  length-append (take (max_chars - length notice) text) notice,
)

-- A text cut by UTF-16 units has at most as many units as its cap, whatever the notice, if the
-- repair of the head does not make it longer.
pub truncate_utf16_with-le :
    (text notice : Text) (max_units : ℕ) (fixup : Text → Text)
    → ((head : Text) → utf16_count (fixup head) ≤ utf16_count head)
    → utf16_count (truncate_utf16_with text max_units notice fixup) ≤ max_units
unfolding truncate_utf16_with
truncate_utf16_with-le text notice max_units fixup shrinks =
    let head = take_utf16 text (max_units - utf16_count notice) in
    ground (
      arith,
      take_utf16-le text max_units,
      take_utf16-le text (max_units - utf16_count notice),
      shrinks head,
      utf16_count-append (fixup head) notice,
    )

-- A text cut by bytes has at most as many bytes as its cap, whatever the notice.
pub truncate_bytes-le :
    (text notice : Text) (max_bytes : ℕ)
    → byte_len (truncate_bytes text max_bytes notice) ≤ max_bytes
unfolding truncate_bytes
truncate_bytes-le text notice max_bytes =
    let end = cut_point text max_bytes (byte_len notice) in
    ground (
      arith,
      slice_to-le text end,
      walk_back-le text (min (max_bytes - byte_len notice) (byte_len text)),
      walk_back-le text (min max_bytes (byte_len text)),
      byte_len-append (slice_to text end) notice,
    )
