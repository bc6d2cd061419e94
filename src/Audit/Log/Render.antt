-- ===== src/Audit/Log/Render.antt =====
-- A file that holds the lines of entries: what reading it gives.
use dotagent.Common.{
  ℕ, ◌≤◌, ◌≡◌, refl, sym, ap, ◌∙◌, ◌⊎◌, inl, inr, true, false, some, List, [], append-nil, ◌∷◌,
  ◌++◌, append_assoc, arith, ◌==◌, All,
}
use dotagent.Common.Text.{Text, trim, trim_start, trim_end, is_whitespace}
use dotagent.Common.Text.Digits.{has}
use dotagent.Common.Text.Lines.{lines}
use dotagent.Common.Text.Utf8.{as_bytes, from_utf8, from_utf8-as_bytes, utf8_before}
use dotagent.Audit.Entry.{AuditEntry, Crates}
use dotagent.Audit.Tail.{drop_cr, decode_line, is_blank, read_tail}
use dotagent.Audit.Tail.Forward.{
  last_text_line, newest, passed_blank, taken, split_at-whole, ends-append, summary,
  read_tail-summary,
}
use dotagent.Audit.Log.{line_bytes}

unfoldable pub render : Crates → List AuditEntry → List ℕ
render crates [] = []
render crates (e ∷ es) = line_bytes crates e ++ render crates es

abbrev Printable : List ℕ → Type 0
Printable l = All (λ c. 32 ≤ c) l

lines-line : (l rest : List ℕ) → Printable l → lines (l ++ (10 ∷ rest)) ≡ l ∷ lines rest
lines-line [] [] h = refl
lines-line [] (d ∷ rest) h = refl
lines-line (c ∷ []) [] h = ground arith
lines-line (c ∷ []) (d ∷ rest) h = ground arith
lines-line (c ∷ d ∷ l) rest h =
    let no_return : (c == 13) ≡ false = ground arith in
    let no_newline : (c == 10) ≡ false = ground arith in
    rw (no_return, no_newline, lines-line (d ∷ l) rest h.1) refl

as_bytes-Printable : (s : Text) → Printable s → Printable (as_bytes s)
unfolding as_bytes utf8_before
as_bytes-Printable [] h = tt
as_bytes-Printable (c ∷ s) h = ground (arith, as_bytes-Printable s)

has-Printable : (l : List ℕ) → Printable l → has 10 l ≡ false
has-Printable [] h = refl
has-Printable (c ∷ l) h = ground (arith, has-Printable l)

drop_cr-Printable : (l : List ℕ) → Printable l → drop_cr l ≡ l
unfolding drop_cr
drop_cr-Printable [] h = refl
drop_cr-Printable (c ∷ []) h = ground arith
drop_cr-Printable (c ∷ d ∷ l) h = ap (λ (r : List ℕ). c ∷ r) (drop_cr-Printable (d ∷ l) h.1)

List-cases : (l : Text) → (l ≡ []) ⊎ ((d : ℕ) × (t : Text) × (l ≡ d ∷ t))
List-cases [] = inl refl
List-cases (d ∷ t) = inr (d, t, refl)

is_blank-object : (s : Text) → is_blank (b'{' ∷ s) ≡ false
unfolding is_blank trim trim_start trim_end is_whitespace
is_blank-object s = elim (List-cases (trim_end s)) [ inl e ↦ rw e refl | inr (d, t, e) ↦ rw e refl ]

module _ (crates : Crates) (e : AuditEntry) where
  abbrev bytes : List ℕ
  bytes = as_bytes (crates.to_string e)

  bytes-Printable : Printable bytes
  bytes-Printable = as_bytes-Printable (crates.to_string e) (crates.to_string_printable e)

  from_utf8-bytes : from_utf8 bytes ≡ some (crates.to_string e)
  from_utf8-bytes = from_utf8-as_bytes (crates.to_string e) (crates.to_string_plain e)

  decode_line-bytes : decode_line bytes ≡ some (crates.to_string e)
  unfolding decode_line
  decode_line-bytes = rw (drop_cr-Printable bytes bytes-Printable) from_utf8-bytes

  pub is_blank-to_string : is_blank (crates.to_string e) ≡ false
  is_blank-to_string = let (rest, whole) = crates.one_object e in rw whole (is_blank-object rest)

  -- the lines of a file that starts with the entry
  pub lines-line_bytes : (rest : List ℕ) → lines (line_bytes crates e ++ rest) ≡ bytes ∷ lines rest
  lines-line_bytes rest =
      rw (append_assoc bytes (10 ∷ []) rest) (lines-line bytes rest bytes-Printable)

-- a file that is empty or ends with a newline
abbrev pub IsEnded : List ℕ → Type 0
IsEnded file = (file ≡ []) ⊎ ((x : List ℕ) × (file ≡ x ++ (10 ∷ [])))

decode_line-nil : decode_line [] ≡ some []
unfolding decode_line drop_cr from_utf8
decode_line-nil = refl

is_blank-nil : is_blank [] ≡ true
unfolding is_blank trim
is_blank-nil = refl

last_line_of :
    (crates : Crates) (e : AuditEntry) (file : List ℕ)
    → IsEnded file
    → last_text_line (file ++ bytes crates e) true ≡ (some (crates.to_string e), true)
unfolding last_text_line newest
last_line_of crates e file (inl nothing) =
    rw
      (
        nothing,
        split_at-whole 10 (bytes crates e) (has-Printable _ (bytes-Printable crates e)),
        decode_line-bytes crates e,
        is_blank-to_string crates e,
      )
      refl
last_line_of crates e file (inr (x, ended)) =
    rw (ended, append_assoc x (10 ∷ []) (bytes crates e))
      (taken [] x (bytes crates e) true _ (has-Printable _ (bytes-Printable crates e))
        (decode_line-bytes crates e) (is_blank-to_string crates e))

-- the end of a file to which the line of an entry was written
pub read_tail-line_bytes :
    (crates : Crates) (e : AuditEntry) (file : List ℕ)
    → IsEnded file
    → summary (read_tail (file ++ line_bytes crates e)) ≡ (some (crates.to_string e), true)
read_tail-line_bytes crates e file ended =
    read_tail-summary (file ++ line_bytes crates e)
    ∙ rw
        (← append_assoc file (bytes crates e) (10 ∷ []), ends-append (file ++ bytes crates e) 10 [])
        (passed_blank [] (file ++ bytes crates e) [] true [] refl decode_line-nil is_blank-nil
          ∙ last_line_of crates e file ended)

pub render-one : (crates : Crates) (e : AuditEntry) → render crates (e ∷ []) ≡ line_bytes crates e
unfolding render
render-one crates e = append-nil (line_bytes crates e)

pub render-append :
    (crates : Crates) (es : List AuditEntry) (e : AuditEntry)
    → render crates (es ++ (e ∷ [])) ≡ render crates es ++ line_bytes crates e
unfolding render
render-append crates [] e = append-nil (line_bytes crates e)
render-append crates (f ∷ es) e =
    rw (render-append crates es e)
      (sym (append_assoc (line_bytes crates f) (render crates es) (line_bytes crates e)))

IsEnded-append : (x file : List ℕ) → IsEnded file → IsEnded ((x ++ (10 ∷ [])) ++ file)
IsEnded-append x file (inl nothing) = inr (x, rw nothing (append-nil _))
IsEnded-append x file (inr (y, ended)) =
    inr ((x ++ (10 ∷ [])) ++ y, rw ended (sym (append_assoc (x ++ (10 ∷ [])) y (10 ∷ []))))

pub render-IsEnded : (crates : Crates) (es : List AuditEntry) → IsEnded (render crates es)
unfolding render
render-IsEnded crates [] = inl refl
render-IsEnded crates (e ∷ es) = IsEnded-append _ (render crates es) (render-IsEnded crates es)

-- the last of the entries
abbrev pub last_of : AuditEntry → List AuditEntry → AuditEntry
last_of e [] = e
last_of e (f ∷ es) = last_of f es

render-last :
    (crates : Crates) (e : AuditEntry) (es : List AuditEntry)
    → (init : List AuditEntry) × (e ∷ es ≡ init ++ (last_of e es ∷ []))
render-last crates e [] = ([], refl)
render-last crates e (f ∷ es) =
    let (init, whole) = render-last crates f es in
    (e ∷ init, ap (λ (r : List AuditEntry). e ∷ r) whole)

-- the end of the file is its last entry
pub read_tail-render :
    (crates : Crates) (e : AuditEntry) (es : List AuditEntry)
    → summary (read_tail (render crates (e ∷ es))) ≡ (some (crates.to_string (last_of e es)), true)
read_tail-render crates e es =
    let (init, whole) = render-last crates e es in
    let end = last_of e es in
    ap (λ (l : List AuditEntry). summary (read_tail (render crates l))) whole
    ∙ ap (λ (l : List ℕ). summary (read_tail l)) (render-append crates init end)
    ∙ read_tail-line_bytes crates end (render crates init) (render-IsEnded crates init)
