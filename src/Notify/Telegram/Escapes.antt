-- ===== src/Notify/Telegram/Escapes.antt =====
-- Every body that is rendered is one that Telegram's limit and its MarkdownV2 parser accept.
use dotagent.Common.{
  ℕ, ◌+◌, ◌-◌, ◌%◌, ◌≤◌, ◌≡◌, refl, ◌∙◌, Bool, true, false, Option, none, some, [], ◌∷◌, ◌++◌, ◌==◌,
  leb, if◌then◌else◌, arith, Bool-cases, inl, inr,
}
use dotagent.Common.Text.{Text}
use dotagent.Notify.Limits.{truncation_notice, utf16_count, take_utf16, truncate_utf16_with}
use dotagent.Notify.Limits.Caps.{truncate_utf16_with-le}
use dotagent.Notify.Limits.Agree.{take_utf16-prefix}
use dotagent.Notify.Telegram.{
  ParseMode, markdown_v2, html, markdown_legacy, backslash, is_reserved, escape_markdown_v2,
  trailing, pop, drop_dangling, truncate, render_body, max_message_units,
}

utf16_count-pop : (s : Text) → utf16_count (pop s) ≤ utf16_count s
utf16_count-pop [] = omega arith
utf16_count-pop (c ∷ []) = omega arith
utf16_count-pop (c ∷ d ∷ s) = omega (arith, utf16_count-pop (d ∷ s))

drop_dangling-le : (head : Text) → utf16_count (drop_dangling head) ≤ utf16_count head
unfolding drop_dangling
drop_dangling-le head = ground (arith, utf16_count-pop head)

-- Every body that is rendered has at most 4096 UTF-16 units, escapes and notice included, in every
-- parse mode.
pub render_body-le :
    (text : Text) (mode : Option ParseMode)
    → utf16_count (render_body text mode) ≤ max_message_units
unfolding render_body
render_body-le text none = truncate_utf16_with-le _ _ max_message_units _ (λ head. omega arith)
render_body-le text (some markdown_v2) =
    truncate_utf16_with-le _ _ max_message_units drop_dangling drop_dangling-le
render_body-le text (some html) =
    truncate_utf16_with-le _ _ max_message_units _ (λ head. omega arith)
render_body-le text (some markdown_legacy) =
    truncate_utf16_with-le _ _ max_message_units _ (λ head. omega arith)

-- A reader of MarkdownV2 without entities: `true` stands after a backslash that waits for the
-- reserved character it escapes; a reserved character that is not escaped is an error.
pub scan : Bool → Text → Option Bool
scan p [] = some p
scan true (c ∷ s) = let rest = scan false s in if is_reserved c then rest else none
scan false (c ∷ s) =
    let escaped = scan true s in
    let rest = scan false s in
    if c == backslash then escaped else (if is_reserved c then none else rest)

scan-append : (p q : Bool) (s t : Text) → scan p s ≡ some q → scan p (s ++ t) ≡ scan q t
unfolding scan
scan-append p q [] t h = ground arith
scan-append true q (c ∷ s) t h = ground (arith, scan-append false q s t)
scan-append false q (c ∷ s) t h = ground (arith, scan-append false q s t, scan-append true q s t)

reserved_backslash : is_reserved backslash ≡ true
unfolding is_reserved
reserved_backslash = refl

scan-escape : (s : Text) → scan false (escape_markdown_v2 s) ≡ some false
unfolding scan escape_markdown_v2
scan-escape [] = refl
scan-escape (c ∷ s) = elim (Bool-cases (is_reserved c)) [
  | inl r ↦ rw (r, r) (scan-escape s)
  | inr r ↦ ground (arith, reserved_backslash, scan-escape s)
]

-- what a prefix leaves behind is no error
scan-prefix :
    (p q : Bool) (s t : Text) → scan p (s ++ t) ≡ some q → (r : Bool) × (scan p s ≡ some r)
unfolding scan
scan-prefix p q [] t h = (p, refl)
scan-prefix true q (c ∷ s) t h = ground (arith, scan-prefix false q s t)
scan-prefix false q (c ∷ s) t h = ground (arith, scan-prefix false q s t, scan-prefix true q s t)

-- a backslash waits exactly after an odd run of them
scan-trailing :
    (p r : Bool) (n : ℕ) (s : Text)
    → scan p s ≡ some r
    → (n % 2 == 1) ≡ p
    → (trailing n s % 2 == 1) ≡ r
unfolding scan
scan-trailing p r n [] h e = ground arith
scan-trailing true r n (c ∷ s) h e =
    ground (arith, scan-trailing false r (n + 1) s, scan-trailing false r 0 s)
scan-trailing false r n (c ∷ s) h e =
    ground (arith, scan-trailing true r (n + 1) s, scan-trailing false r 0 s)

scan-pop :
    (p : Bool) (c : ℕ) (s : Text) → scan p (c ∷ s) ≡ some true → scan p (pop (c ∷ s)) ≡ some false
unfolding scan
scan-pop true c [] h = ground arith
scan-pop false c [] h = ground arith
scan-pop true c (d ∷ s) h = ground (arith, scan-pop false d s)
scan-pop false c (d ∷ s) h = ground (arith, scan-pop true d s, scan-pop false d s)

scan-drop_dangling :
    (head : Text) (r : Bool)
    → scan false head ≡ some r
    → scan false (drop_dangling head) ≡ some false
unfolding drop_dangling scan
scan-drop_dangling [] r h = refl
scan-drop_dangling (c ∷ s) true h =
    rw (scan-trailing false true 0 (c ∷ s) h refl) (scan-pop false c s h)
scan-drop_dangling (c ∷ s) false h = rw (scan-trailing false false 0 (c ∷ s) h refl) h

scan-truncate :
    (text : Text)
    → scan false text ≡ some false
    → scan false (truncate text (some markdown_v2)) ≡ some false
unfolding truncate truncate_utf16_with
scan-truncate text h = elim (Bool-cases (leb (utf16_count text) max_message_units)) [
  | inl fits ↦ rw fits h
  | inr long ↦
      let notice = escape_markdown_v2 truncation_notice in
      let head = take_utf16 text (max_message_units - utf16_count notice) in
      let (rest, whole) = take_utf16-prefix text (max_message_units - utf16_count notice) in
      let (r, begun) = scan-prefix false false head rest (rw whole h) in
      rw long (
        scan-append false false (drop_dangling head) notice (scan-drop_dangling head r begun)
        ∙ scan-escape truncation_notice)
]

-- A MarkdownV2 body that is rendered is well escaped, cut or not: read from the left, every
-- backslash is followed by the reserved character that it escapes, and no other reserved character
-- stands in it.
pub scan-render_body : (text : Text) → scan false (render_body text (some markdown_v2)) ≡ some false
unfolding render_body
scan-render_body text = scan-truncate (escape_markdown_v2 text) (scan-escape text)
