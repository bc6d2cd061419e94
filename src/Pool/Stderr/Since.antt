-- ===== src/Pool/Stderr/Since.antt =====
-- What a request is given of the stream.
use dotagent.Common.{
  true, false, ℕ, zero, suc, ◌+◌, ◌-◌, ◌≤◌, ◌≡◌, refl, sym, ap, ◌∙◌, List, [], ◌∷◌, ◌++◌, min,
  arith, ltb, length, drop, length-append, length-drop, append_assoc, append-nil,
}
use dotagent.Common.Text.{Text}
use dotagent.Common.Text.Lines.{join_lines}
use dotagent.Pool.Stderr.{StderrRing, stderr_ring_lines, empty_ring, pop_excess, push, since}

drop_nil : (n : ℕ) → drop {A = Text} n [] ≡ []
drop_nil zero = refl
drop_nil (suc n) = refl

drop-drop : (m n k : ℕ) (xs : List Text) → k ≡ n + m → drop m (drop n xs) ≡ drop k xs
drop-drop m zero k xs e = let same : m ≡ k = omega arith in ap (λ i. drop i xs) same
drop-drop m (suc n) k [] e = drop_nil m ∙ sym (drop_nil k)
drop-drop m (suc n) zero (x ∷ xs) e = absurd (omega arith)
drop-drop m (suc n) (suc k) (x ∷ xs) e = drop-drop m n k xs (omega arith)

drop-append : (k n : ℕ) (xs ys : List Text) → k ≡ length xs + n → drop k (xs ++ ys) ≡ drop n ys
drop-append k n [] ys e = let same : k ≡ n = omega arith in ap (λ i. drop i ys) same
drop-append zero n (x ∷ xs) ys e = absurd (omega arith)
drop-append (suc k) n (x ∷ xs) ys e = drop-append k n xs ys (omega arith)

drop-append_le : (n : ℕ) (xs ys : List Text) → n ≤ length xs → drop n xs ++ ys ≡ drop n (xs ++ ys)
drop-append_le zero xs ys le = refl
drop-append_le (suc n) [] ys le = absurd (omega arith)
drop-append_le (suc n) (x ∷ xs) ys le = drop-append_le n xs ys (omega arith)

pop_excess-drop :
    (k : ℕ) (xs : List Text) → k ≡ length xs - stderr_ring_lines → pop_excess xs ≡ drop k xs
unfolding pop_excess
pop_excess-drop k [] e = sym (drop_nil k)
pop_excess-drop zero (x ∷ xs) e =
    let fits : ltb stderr_ring_lines (suc (length xs)) ≡ false = ground arith in rw fits refl
pop_excess-drop (suc k) (x ∷ xs) e =
    let over : ltb stderr_ring_lines (suc (length xs)) ≡ true = ground arith in
    rw over (pop_excess-drop k xs (omega arith))

-- the ring holds the last lines of all that were printed
abbrev Holds : StderrRing → List Text → Type 0
Holds ring all =
    (ring.lines ≡ drop (length all - stderr_ring_lines) all) × (ring.total ≡ length all)

push-Holds :
    (ring : StderrRing) (all : List Text) (line : Text)
    → Holds ring all
    → Holds (push ring line) (all ++ line ∷ [])
unfolding push
push-Holds ring all line (held, counted) =
    let n = length all - stderr_ring_lines in
    let more = length-append all (line ∷ []) in
    let rest = length-drop n all in
    let grown = drop-append_le n all (line ∷ []) (omega arith) in
    let size = length-append (drop n all) (line ∷ []) in
    let k = length (drop n all ++ line ∷ []) - stderr_ring_lines in
    (
      ap (λ ls. pop_excess (ls ++ line ∷ [])) held
          ∙ pop_excess-drop k (drop n all ++ line ∷ []) refl
          ∙ ap (λ ls. drop k ls) grown
          ∙ drop-drop k n _ (all ++ line ∷ []) (omega (arith, more, rest, size)),
      omega (arith, counted, more),
    )

-- the reader of the stream
unfoldable pub push_all : StderrRing → List Text → StderrRing
push_all ring [] = ring
push_all ring (l ∷ ls) = push_all (push ring l) ls

push_all-Holds :
    (ring : StderrRing) (all more : List Text)
    → Holds ring all
    → Holds (push_all ring more) (all ++ more)
unfolding push_all
push_all-Holds ring all [] h = rw append-nil h
push_all-Holds ring all (l ∷ ls) h =
    rw (← append_assoc all (l ∷ []) ls)
      (push_all-Holds (push ring l) (all ++ l ∷ []) ls (push-Holds ring all l h))

-- A request is given the lines that were printed since it began, the last 500 of them if there are
-- more, and never a line from before, whatever the instance had printed until then.
pub since-push_all :
    (before during : List Text)
    → let ring = push_all empty_ring before in
      since (push_all ring during) ring.total
      ≡ join_lines (drop (length during - stderr_ring_lines) during)
unfolding since
since-push_all before during =
    let ring = push_all empty_ring before in
    let (held, counted) = push_all-Holds empty_ring [] before (refl, refl) in
    let (held', counted') = push_all-Holds ring before during (held, counted) in
    let all = before ++ during in
    let final = push_all ring during in
    let start = length final.lines - min (final.total - ring.total) (length final.lines) in
    let n = length all - stderr_ring_lines in
    let m = length during - stderr_ring_lines in
    let size = ap (λ ls. length ls) held' ∙ length-drop n all in
    let sum = length-append before during in
    ap (λ ls. join_lines ls)
      (ap (λ ls. drop start ls) held'
        ∙ drop-drop start n (length before + m) all (omega (arith, size, sum, counted, counted'))
        ∙ drop-append (length before + m) m before during refl)
