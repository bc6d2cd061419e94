-- ===== src/Os/Policy/Covers.antt =====
-- Which invocations an entry of a policy list covers.
use dotagent.Common.{
  ℕ, suc, ◌≡◌, ◌↔◌, refl, sym, ◌∙◌, inl, inr, Bool, true, ◌&&◌, List, [], ◌∷◌, ◌++◌, arith,
  Bool-cases,
}
use dotagent.Common.Table.{refl_text}
use dotagent.Common.Text.{Text, text_eq, text_eq_iff}
use dotagent.Common.Text.Lines.{split_whitespace}
use dotagent.Os.Policy.{all_at, tokens_match, matches_any}

-- An entry covers an invocation: its tokens, and there is one, are the binary and the leading
-- arguments, each whole.
pub record Covers (tokens : List Text) (bin : Text) (args : List Text) : Type 0 where
  pub head : Text
  pub more : List Text
  pub rest : List Text
  pub split : tokens ≡ head ∷ more
  pub whole : bin ∷ args ≡ tokens ++ rest

pub data Covered (bin : Text) (args : List Text) : List Text → Type 0 where
  this :
      {entry : Text} {list : List Text}
      → Covers (split_whitespace entry) bin args
      → Covered bin args (entry ∷ list)
  other :
      {entry : Text} {list : List Text} → Covered bin args list → Covered bin args (entry ∷ list)

and_true : (a b : Bool) → (a && b) ≡ true → (a ≡ true) × (b ≡ true)
and_true a b h = ground arith

head_inj : {s t : Text} {ss ts : List Text} → (s ∷ ss) ≡ (t ∷ ts) → s ≡ t
head_inj e = cc

tail_inj : {s t : Text} {ss ts : List Text} → (s ∷ ss) ≡ (t ∷ ts) → ss ≡ ts
tail_inj e = cc

all_at-suc :
    (i : ℕ) (wants args : List Text) (a : Text)
    → all_at (suc i) wants (a ∷ args) ≡ all_at i wants args
all_at-suc i [] args a = refl
all_at-suc i (want ∷ wants) args a = rw (all_at-suc (suc i) wants args a) refl

all_at-prefix :
    (wants args : List Text)
    → all_at 0 wants args ≡ true
    → (rest : List Text) × (args ≡ wants ++ rest)
all_at-prefix [] args h = (args, refl)
all_at-prefix (want ∷ wants) [] h = absurd (cc)
all_at-prefix (want ∷ wants) (a ∷ args) h =
    let both = and_true (text_eq a want) (all_at 1 wants (a ∷ args)) h in
    let (rest, same) = all_at-prefix wants args (sym (all_at-suc 0 wants args a) ∙ both.1) in
    (rest, cc (same, (text_eq_iff a want).0 both.0))

prefix-all_at : (wants rest : List Text) → all_at 0 wants (wants ++ rest) ≡ true
prefix-all_at [] rest = refl
prefix-all_at (want ∷ wants) rest =
    rw (all_at-suc 0 wants (wants ++ rest) want, refl_text want, prefix-all_at wants rest) refl

tokens_match-Covers :
    (tokens : List Text) (bin : Text) (args : List Text)
    → tokens_match tokens bin args ≡ true
    → Covers tokens bin args
tokens_match-Covers [] bin args h = absurd cc
tokens_match-Covers (head ∷ tokens) bin args h =
    let both = and_true (text_eq head bin) (all_at 0 tokens args) h in
    let (rest, same) = all_at-prefix tokens args both.1 in
    record {
      head = head;
      more = tokens;
      rest = rest;
      split = refl;
      whole = cc (same, (text_eq_iff head bin).0 both.0);
    }

Covers-tokens_match :
    (tokens : List Text) (bin : Text) (args : List Text)
    → Covers tokens bin args
    → tokens_match tokens bin args ≡ true
Covers-tokens_match [] bin args c = absurd (cc c.split)
Covers-tokens_match (head ∷ tokens) bin args c =
    rw (head_inj c.whole, tail_inj c.whole, refl_text head, prefix-all_at tokens c.rest) refl

-- An entry of the list covers the invocation exactly when `matches_any` finds one: never by a part of
-- a token.
pub matches_any_iff :
    (list : List Text) (bin : Text) (args : List Text)
    → (matches_any list bin args ≡ true) ↔ Covered bin args list
unfolding matches_any
matches_any_iff list bin args = (to list, from list)
  where
    to : (l : List Text) → matches_any l bin args ≡ true → Covered bin args l
    to [] h = absurd cc
    to (entry ∷ l) h = elim (Bool-cases (tokens_match (split_whitespace entry) bin args)) [
      | inl found ↦ this (tokens_match-Covers (split_whitespace entry) bin args found)
      | inr off ↦ other (to l (rw off at h))
    ]

    from : (l : List Text) → Covered bin args l → matches_any l bin args ≡ true
    from [] x = elim x [ ]
    from (entry ∷ l) (this c) = rw (Covers-tokens_match (split_whitespace entry) bin args c) refl
    from (entry ∷ l) (other c) = ground (arith, from l c)
