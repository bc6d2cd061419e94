-- ===== src/Os/Bang/Quotes.antt =====
-- Typed arguments in quotes.
use dotagent.Common.{
  ℕ, ◌≡◌, refl, sym, ap, ◌∙◌, true, false, some, none, List, [], ◌∷◌, ◌++◌, All, append_assoc,
  append-nil, arith, ◌==◌,
}
use dotagent.Common.Text.{Text, is_whitespace}
use dotagent.Common.Text.Digits.{has}
use dotagent.Os.Bang.{Splitting, split_char, split_loop, last_token, split_tokens}

abbrev pub quoted : Text → Text
quoted arg = 34 ∷ (arg ++ (34 ∷ []))

-- the arguments as someone types them, each in double quotes
abbrev pub typed : List Text → Text
typed [] = []
typed (arg ∷ []) = quoted arg
typed (arg ∷ next ∷ args) = quoted arg ++ (32 ∷ typed (next ∷ args))

split_loop-append :
    (st : Splitting) (s t : Text) → split_loop st (s ++ t) ≡ split_loop (split_loop st s) t
split_loop-append st [] t = refl
split_loop-append st (c ∷ s) t = split_loop-append (split_char st.quote st c) s t

abbrev within : List Text → Text → Splitting
within out current = record { out = out; current = current; quote = some 34; started = true }

abbrev closed : List Text → Text → Splitting
closed out current = record { out = out; current = current; quote = none; started = true }

abbrev between : List Text → Splitting
between out = record { out = out; current = []; quote = none; started = false }

not_quote : (c : ℕ) (s : Text) → has 34 (c ∷ s) ≡ false → ((c == 34) ≡ false) × (has 34 s ≡ false)
not_quote c s h = ground arith

-- between its quotes every character is part of the argument
inside :
    (out : List Text) (current arg : Text)
    → has 34 arg ≡ false
    → split_loop (within out current) arg ≡ within out (current ++ arg)
inside out current [] h = rw (append-nil current) refl
inside out current (c ∷ arg) h =
    let (other, rest) = not_quote c arg h in
    rw (other, inside out (current ++ (c ∷ [])) arg rest, append_assoc current (c ∷ []) arg) refl

-- and its quotes are not
split_loop-quoted :
    (out : List Text) (arg rest : Text)
    → has 34 arg ≡ false
    → split_loop (between out) (quoted arg ++ rest) ≡ split_loop (closed out arg) rest
split_loop-quoted out arg rest h =
    rw
      (
        append_assoc arg (34 ∷ []) rest,
        split_loop-append (within out []) arg (34 ∷ rest),
        inside out [] arg h,
      )
      refl

abbrev pub Unquoted : List Text → Type 0
Unquoted = All (λ arg. has 34 arg ≡ false)

split_loop-typed :
    (out args : List Text)
    → Unquoted args
    → last_token (split_loop (between out) (typed args)) ≡ out ++ args
unfolding is_whitespace
split_loop-typed out [] plain = sym (append-nil out)
split_loop-typed out (arg ∷ []) plain =
    ap (λ s. last_token (split_loop (between out) s)) (sym (append-nil (quoted arg)))
    ∙ ap last_token (split_loop-quoted out arg [] plain.0)
split_loop-typed out (arg ∷ next ∷ args) plain =
    rw
      (
        split_loop-quoted out arg (32 ∷ typed (next ∷ args)) plain.0,
        split_loop-typed (out ++ (arg ∷ [])) (next ∷ args) plain.1,
        append_assoc out (arg ∷ []) (next ∷ args),
      )
      refl

-- Arguments without a double quote, typed each in double quotes with a blank between two of them,
-- are split into just these arguments: white space and empty arguments survive.
pub split_tokens-typed : (args : List Text) → Unquoted args → split_tokens (typed args) ≡ args
unfolding split_tokens
split_tokens-typed args plain = split_loop-typed [] args plain
