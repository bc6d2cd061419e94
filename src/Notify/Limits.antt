-- ===== src/Notify/Limits.antt =====
-- crates/dotagent-notify/src/limits.rs: the three cutters. Lengths are counted in characters, in
-- UTF-16 units or in UTF-8 bytes.
pub mod Caps
pub mod Agree
use dotagent.Common.{
  ℕ, zero, suc, ◌+◌, ◌-◌, ◌*◌, Bool, true, false, not, ◌&&◌, List, [], ◌∷◌, ◌++◌, min, ltb, leb,
  if◌then◌else◌, length, take,
}
use dotagent.Common.Text.{Text, codes, len_utf8, byte_len}

abbrev pub truncation_notice : Text
truncation_notice = codes "\n[truncated]"

abbrev pub ellipsis_notice : Text
ellipsis_notice = codes "…"

-- `char::len_utf16`
abbrev pub len_utf16 : ℕ → ℕ
len_utf16 c = if ltb c 65536 then 1 else 2

-- `encode_utf16().count()`
abbrev pub utf16_count : Text → ℕ
utf16_count [] = 0
utf16_count (c ∷ s) = len_utf16 c + utf16_count s

unfoldable pub truncate_chars : Text → ℕ → Text → Text
truncate_chars text max_chars notice =
    if leb (length text) max_chars
    then text
    else (let notice_len = length notice in
        if leb max_chars notice_len
        then take max_chars text
        else take (max_chars - notice_len) text ++ notice)

-- the loop of `take_utf16`, with `used` units so far
take_units : Text → ℕ → ℕ → Text
take_units [] max_units used = []
take_units (c ∷ s) max_units used =
    let width = len_utf16 c in
    let rest = take_units s max_units (used + width) in
    if ltb max_units (used + width) then [] else c ∷ rest

unfoldable pub take_utf16 : Text → ℕ → Text
unfolding take_units
take_utf16 text max_units = take_units text max_units 0

unfoldable pub truncate_utf16_with : Text → ℕ → Text → (Text → Text) → Text
unfolding take_utf16
truncate_utf16_with text max_units notice fixup =
    if leb (utf16_count text) max_units
    then text
    else (let notice_units = utf16_count notice in
        if leb max_units notice_units
        then take_utf16 text max_units
        else fixup (take_utf16 text (max_units - notice_units)) ++ notice)

-- `str::is_char_boundary`
abbrev pub is_char_boundary : Text → ℕ → Bool
is_char_boundary text zero = true
is_char_boundary [] (suc n) = false
is_char_boundary (c ∷ s) (suc n) =
    let later = is_char_boundary s (suc n - len_utf8 c) in
    if ltb (suc n) (len_utf8 c) then false else later

-- `&text[..end]`: the characters that end at or before the offset. The source panics where it is
-- no boundary.
abbrev pub slice_to : Text → ℕ → Text
slice_to [] end = []
slice_to (c ∷ s) end =
    let rest = slice_to s (end - len_utf8 c) in if ltb end (len_utf8 c) then [] else c ∷ rest

-- the walk back to a boundary
abbrev pub walk_back : Text → ℕ → ℕ
walk_back text zero = zero
walk_back text (suc end) =
    let earlier = walk_back text end in if is_char_boundary text (suc end) then suc end else earlier

-- where `truncate_bytes` cuts
abbrev pub cut_point : Text → ℕ → ℕ → ℕ
cut_point text max_bytes notice_bytes =
    let budget = if ltb notice_bytes max_bytes then max_bytes - notice_bytes else max_bytes in
    walk_back text (min budget (byte_len text))

unfoldable pub truncate_bytes : Text → ℕ → Text → Text
truncate_bytes text max_bytes notice =
    if leb (byte_len text) max_bytes
    then text
    else (let head = slice_to text (cut_point text max_bytes (byte_len notice)) in
        if ltb (byte_len notice) max_bytes then head ++ notice else head)
