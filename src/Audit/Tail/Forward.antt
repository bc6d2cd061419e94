-- ===== src/Audit/Tail/Forward.antt =====
-- Reading backwards in chunks finds what reading the whole file forwards finds.
use dotagent.Common.{
  ℕ, zero, suc, ◌+◌, ◌-◌, ◌≤◌, ◌<◌, ◌≡◌, refl, sym, ap, ◌∙◌, inl, inr, Bool, true, false, Option,
  none, some, List, [], ◌∷◌, ◌++◌, append-nil, append_assoc, min, arith, ◌==◌, if◌then◌else◌,
  length, length-drop, take, drop, Bool-cases, Option-cases,
}
use mathlib.Core.List.{reverse, reverse-append}
use dotagent.Common.Text.{Text, trim}
use dotagent.Common.Text.Utf8.{from_utf8}
use dotagent.Common.Text.Digits.{has, rsplit_once-none, rsplit_once-some}
use dotagent.Common.Text.Lines.{split_at, rsplit_once}
use dotagent.Audit.Tail.{
  Tail, decode_line, is_blank, ends_in_newline, Scan, found, left, lines_back, Reading, read_back,
  first_line, next_chunk, chunks_back, at_end, read_tail_by, read_tail, tail_chunk,
}

-- Of lines from the last to the first: the first that is text and not blank; and whether the file is
-- taken to end with a newline, which it is not if a line that is no text came before.
abbrev weigh : Option Text → Option Text × Bool → Option Text × Bool → Bool → Option Text × Bool
weigh none later later_unended ends = later_unended
weigh (some line) later later_unended ends = if is_blank line then later else (some line, ends)

unfoldable pub newest : List (List ℕ) → Bool → Option Text × Bool
newest [] ends = (none, ends)
newest (l ∷ ls) ends = weigh (decode_line l) (newest ls ends) (newest ls false) ends

-- reading forwards: the lines are split, and the last one taken
unfoldable pub last_text_line : List ℕ → Bool → Option Text × Bool
last_text_line bytes ends = newest (reverse (split_at 10 bytes)) ends

split_at-ne-nil :
    (c : ℕ) (s : List ℕ) → (l : List ℕ) × (ls : List (List ℕ)) × (split_at c s ≡ l ∷ ls)
split_at-ne-nil c [] = ([], [], refl)
split_at-ne-nil c (d ∷ s) =
    let (l, ls, e) = split_at-ne-nil c s in
    elim (Bool-cases (d == c)) [
      | inl b ↦ ([], split_at c s, rw b refl)
      | inr b ↦ (d ∷ l, ls, rw (b, e) refl)
    ]

split_at-append : (c : ℕ) (x y : List ℕ) → split_at c (x ++ (c ∷ y)) ≡ split_at c x ++ split_at c y
split_at-append c [] y = ground arith
split_at-append c (d ∷ x) y =
    let (l, ls, e) = split_at-ne-nil c x in
    elim (Bool-cases (d == c)) [
      | inl b ↦ rw (b, split_at-append c x y) refl
      | inr b ↦ rw (b, split_at-append c x y, e) refl
    ]

pub split_at-whole : (c : ℕ) (s : List ℕ) → has c s ≡ false → split_at c s ≡ s ∷ []
split_at-whole c [] h = refl
split_at-whole c (d ∷ s) h = ground (arith, split_at-whole c s)

-- what the inner loop leaves to be read, before which stands `pre`
abbrev Settles : List ℕ → List ℕ → Bool → Scan → Type 0
Settles pre pending ends (found line unended) =
    last_text_line (pre ++ pending) ends ≡ (some line, unended)
Settles pre pending ends (left rest unended) =
    (last_text_line (pre ++ pending) ends ≡ last_text_line (pre ++ rest) unended)
    × (has 10 rest ≡ false)

last_text_line-split :
    (pre x y : List ℕ) (ends : Bool)
    → has 10 y ≡ false
    → last_text_line (pre ++ (x ++ (10 ∷ y))) ends
      ≡ newest (y ∷ reverse (split_at 10 (pre ++ x))) ends
unfolding last_text_line
last_text_line-split pre x y ends h =
    rw
      (
        ← append_assoc pre x (10 ∷ y),
        split_at-append 10 (pre ++ x) y,
        split_at-whole 10 y h,
        reverse-append (split_at 10 (pre ++ x)) (y ∷ []),
      )
      refl

-- a line that is passed over leaves the same to be read
Settles-earlier :
    (pre pending x : List ℕ) (ends unended : Bool) (s : Scan)
    → last_text_line (pre ++ pending) ends ≡ last_text_line (pre ++ x) unended
    → Settles pre x unended s
    → Settles pre pending ends s
Settles-earlier pre pending x ends unended (found line u) e h = e ∙ h
Settles-earlier pre pending x ends unended (left rest u) e h = (e ∙ h.0, h.1)

passed_over :
    (pre x y : List ℕ) (ends : Bool)
    → has 10 y ≡ false
    → decode_line y ≡ none
    → last_text_line (pre ++ (x ++ (10 ∷ y))) ends ≡ last_text_line (pre ++ x) false
unfolding newest last_text_line
passed_over pre x y ends h d = last_text_line-split pre x y ends h ∙ rw d refl

pub passed_blank :
    (pre x y : List ℕ) (ends : Bool) (line : Text)
    → has 10 y ≡ false
    → decode_line y ≡ some line
    → is_blank line ≡ true
    → last_text_line (pre ++ (x ++ (10 ∷ y))) ends ≡ last_text_line (pre ++ x) ends
unfolding newest last_text_line
passed_blank pre x y ends line h d b = last_text_line-split pre x y ends h ∙ rw (d, b) refl

pub taken :
    (pre x y : List ℕ) (ends : Bool) (line : Text)
    → has 10 y ≡ false
    → decode_line y ≡ some line
    → is_blank line ≡ false
    → last_text_line (pre ++ (x ++ (10 ∷ y))) ends ≡ (some line, ends)
unfolding newest
taken pre x y ends line h d b = last_text_line-split pre x y ends h ∙ rw (d, b) refl

lines_back-Settles :
    (fuel : ℕ) (pre pending : List ℕ) (ends : Bool)
    → length pending < fuel
    → Settles pre pending ends (lines_back fuel pending ends)
unfolding lines_back
lines_back-Settles zero pre pending ends h = absurd (omega arith)
lines_back-Settles (suc fuel) pre pending ends h = elim (Option-cases (rsplit_once 10 pending)) [
  | inl n ↦ rw n (refl, rsplit_once-none 10 pending n)
  | inr ((x, y), e) ↦
      let (whole, no_newline, shorter) = rsplit_once-some 10 pending x y e in
      let ih = λ (ends' : Bool). lines_back-Settles fuel pre x ends' (omega (arith, shorter, h)) in
      elim (Option-cases (decode_line y)) [
        | inl d ↦
            rw (e, d, whole)
              (Settles-earlier pre _ x ends false _ (passed_over pre x y ends no_newline d)
                (ih false))
        | inr (line, d) ↦ elim (Bool-cases (is_blank line)) [
          | inl b ↦
              rw (e, d, b, whole)
                (Settles-earlier pre _ x ends ends _ (passed_blank pre x y ends line no_newline d b)
                  (ih ends))
          | inr b ↦ rw (e, d, b, whole) (taken pre x y ends line no_newline d b)
        ]
      ]
]

take-nil : (n : ℕ) → take {A = ℕ} n [] ≡ []
take-nil zero = refl
take-nil (suc n) = refl

take-join :
    (start want pos : ℕ) (file rest : List ℕ)
    → start + want ≡ pos
    → take start file ++ (take want (drop start file) ++ rest) ≡ take pos file ++ rest
take-join zero want pos file rest e = let p : want ≡ pos = omega arith in rw p refl
take-join (suc start) want zero file rest e = absurd (omega arith)
take-join (suc start) want (suc pos) [] rest e = rw (take-nil want) refl
take-join (suc start) want (suc pos) (c ∷ file) rest e =
    ap (λ (r : List ℕ). c ∷ r) (take-join start want pos file rest (omega arith))

abbrev pub summary : Tail → Option Text × Bool
summary t = (t.last_line, t.ends_with_newline)

first_line-summary :
    (file pending : List ℕ) (ends : Bool) (bytes_read : ℕ)
    → has 10 pending ≡ false
    → summary (first_line (decode_line pending) ends file bytes_read) ≡ last_text_line pending ends
unfolding last_text_line newest
first_line-summary file pending ends bytes_read h = elim (Option-cases (decode_line pending)) [
  | inl d ↦ rw (split_at-whole 10 pending h, d) refl
  | inr (line, d) ↦ elim (Bool-cases (is_blank line)) [
    | inl b ↦ rw (split_at-whole 10 pending h, d, b) refl
    | inr b ↦ rw (split_at-whole 10 pending h, d, b) refl
  ]
]

after_scan :
    (go : Reading → Bool → Tail) (fuel chunk : ℕ) (file : List ℕ) (r : Reading) (ends : Bool)
    → 0 < chunk
    → r.pos < suc fuel
    → ((r' : Reading) (ends' : Bool)
        → r'.pos < fuel
        → summary (go r' ends') ≡ last_text_line (take r'.pos file ++ r'.pending) ends')
    → (s : Scan) → Settles (take r.pos file) r.pending ends s
    → summary (next_chunk go chunk file r s) ≡ last_text_line (take r.pos file ++ r.pending) ends
after_scan go fuel chunk file r ends p h more (found line unended) settled = sym settled
after_scan go fuel chunk file r ends p h more (left rest unended) (moved, no_newline) =
    elim (Bool-cases (r.pos == 0)) [
      | inl b ↦
          let start : r.pos ≡ 0 = ground arith in
          simp b (
            first_line-summary file rest unended r.bytes_read no_newline
            ∙ sym (moved ∙ ap (λ (n : ℕ). last_text_line (take n file ++ rest) unended) start))
      | inr b ↦
          let want = min chunk r.pos in
          let join = take-join (r.pos - want) want r.pos file rest (omega arith) in
          let left_of = read_back chunk file (record r { pending = rest }) in
          simp b (
            more left_of unended (ground arith)
            ∙ ap (λ (l : List ℕ). last_text_line l unended) join
            ∙ sym moved)
    ]

chunks_back-summary :
    (fuel chunk : ℕ) (file : List ℕ) (r : Reading) (ends : Bool)
    → 0 < chunk
    → r.pos < fuel
    → summary (chunks_back fuel chunk file r ends)
      ≡ last_text_line (take r.pos file ++ r.pending) ends
unfolding chunks_back
chunks_back-summary zero chunk file r ends p h = absurd (omega arith)
chunks_back-summary (suc fuel) chunk file r ends p h =
    after_scan (chunks_back fuel chunk file) fuel chunk file r ends p h
      (λ r' ends' h'. chunks_back-summary fuel chunk file r' ends' p h') _
      (lines_back-Settles (suc (length r.pending)) (take r.pos file) r.pending ends (omega arith))

pub ends-append :
    (x : List ℕ) (c : ℕ) (y : List ℕ) → ends_in_newline (x ++ (c ∷ y)) ≡ ends_in_newline (c ∷ y)
ends-append [] c y = refl
ends-append (a ∷ []) c y = refl
ends-append (a ∷ b ∷ x) c y = ends-append (b ∷ x) c y

ends-drop :
    (n : ℕ) (file : List ℕ) → n < length file → ends_in_newline (drop n file) ≡ ends_in_newline file
ends-drop zero file h = refl
ends-drop (suc n) [] h = absurd (omega arith)
ends-drop (suc n) (a ∷ []) h = absurd (omega arith)
ends-drop (suc n) (a ∷ b ∷ file) h = ends-drop n (b ∷ file) (omega arith)

take-whole : (n : ℕ) (file : List ℕ) → length file ≤ n → take n file ≡ file
take-whole zero [] h = refl
take-whole zero (a ∷ file) h = absurd (omega arith)
take-whole (suc n) [] h = refl
take-whole (suc n) (a ∷ file) h = ap (λ (r : List ℕ). a ∷ r) (take-whole n file (omega arith))

-- an empty file has no line
no_line : last_text_line [] true ≡ (none, true)
unfolding last_text_line newest decode_line is_blank from_utf8 trim
no_line = refl

-- by chunks of any size
read_tail_by-summary :
    (chunk : ℕ) (file : List ℕ)
    → 0 < chunk
    → summary (read_tail_by chunk file) ≡ last_text_line file (ends_in_newline file)
unfolding read_tail_by
read_tail_by-summary chunk [] p = sym no_line
read_tail_by-summary chunk (b ∷ file) p =
    let all = b ∷ file in
    let want = min chunk (length all) in
    let start = length all - want in
    let r = read_back chunk all (at_end all) in
    let rest = append-nil (take want (drop start all)) in
    let last_chunk = take-whole want (drop start all) (omega (arith, length-drop start all)) in
    let ends = ap ends_in_newline (rest ∙ last_chunk) ∙ ends-drop start all (omega arith) in
    let whole =
      take-join start want (length all) all [] (omega arith)
      ∙ append-nil (take (length all) all)
      ∙ take-whole (length all) all (omega arith) in
    chunks_back-summary (suc r.pos) chunk all r (ends_in_newline r.pending) p (omega arith)
    ∙ ap (λ (l : List ℕ). last_text_line l (ends_in_newline r.pending)) whole
    ∙ ap (λ (e : Bool). last_text_line all e) ends

-- The end of a log, read backwards in chunks of 8192 bytes, is what reading the whole file forwards
-- finds: the last line that is UTF-8 and not blank, and whether the next entry can follow without a
-- newline of its own, which it cannot after bytes that are not text.
pub read_tail-summary :
    (file : List ℕ) → summary (read_tail file) ≡ last_text_line file (ends_in_newline file)
unfolding read_tail
read_tail-summary file = read_tail_by-summary tail_chunk file (omega arith)
