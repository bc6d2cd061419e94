-- ===== src/Os/Policy/Verdicts.antt =====
-- What the policy decides, by the entries of its lists.
use dotagent.Common.{
  ◌≡◌, ◌≢◌, ◌↔◌, ◌⊎◌, refl, inl, inr, Bool, true, false, ◌||◌, List, [], ◌∷◌, any, arith,
  Bool-cases,
}
use dotagent.Common.Text.{Text}
use dotagent.Common.Text.Lines.{split_whitespace}
use dotagent.Os.Policy.{
  OsConfig, confirmed, denied, is_bare_binary_name, matches_any, is_wildcard, is_active,
  is_empty_list, permits, starts_wild, tokens_match, decide,
}
use dotagent.Os.Policy.Covers.{Covered, matches_any_iff}

-- The section is on, the binary is a bare name, no entry of `deny` covers the invocation, and one
-- of `allow` does or `allow` has the wildcard.
pub record Admitted (cfg : OsConfig) (bin : Text) (args : List Text) : Type 0 where
  pub on : cfg.enabled ≡ true
  pub bare : is_bare_binary_name bin ≡ true
  pub not_denied : ¬ Covered bin args cfg.deny
  pub listed : (is_wildcard cfg ≡ true) ⊎ Covered bin args cfg.allow

not_matched :
    (list : List Text) (bin : Text) (args : List Text)
    → ¬ Covered bin args list
    → matches_any list bin args ≡ false
not_matched list bin args h = elim (Bool-cases (matches_any list bin args)) [
  | inl m ↦ absurd (h ((matches_any_iff list bin args).0 m))
  | inr m ↦ m
]

-- a list with an entry that counts is not empty
any-filled : (p : Text → Bool) (l : List Text) → any p l ≡ true → is_empty_list l ≡ false
any-filled p [] h = absurd cc
any-filled p (x ∷ l) h = refl

filled :
    (cfg : OsConfig) (bin : Text) (args : List Text)
    → (is_wildcard cfg ≡ true) ⊎ (matches_any cfg.allow bin args ≡ true)
    → is_empty_list cfg.allow ≡ false
unfolding is_wildcard matches_any
filled cfg bin args (inl w) = any-filled (λ e. starts_wild (split_whitespace e)) cfg.allow w
filled cfg bin args (inr m) =
    any-filled (λ e. tokens_match (split_whitespace e) bin args) cfg.allow m

-- the decision, by the four tests it makes
decide_table :
    (cfg : OsConfig) (bin : Text) (args : List Text)
    → ((decide cfg bin args ≢ denied) ↔ (
        (cfg.enabled ≡ true)
        × (is_empty_list cfg.allow ≡ false)
        × (is_bare_binary_name bin ≡ true)
        × (matches_any cfg.deny bin args ≡ false)
        × ((is_wildcard cfg || matches_any cfg.allow bin args) ≡ true)))
      × ((decide cfg bin args ≡ confirmed)
          ↔ ((decide cfg bin args ≢ denied) × (matches_any cfg.confirm bin args ≡ true)))
unfolding decide permits is_active
decide_table cfg bin args = ground arith

decide-Admitted :
    (cfg : OsConfig) (bin : Text) (args : List Text)
    → decide cfg bin args ≢ denied
    → Admitted cfg bin args
decide-Admitted cfg bin args h =
    let (on, some_entry, bare, off, listed) = (decide_table cfg bin args).0.0 h in
    record {
      on = on;
      bare = bare;
      not_denied = λ c. absurd (cc (off, (matches_any_iff cfg.deny bin args).1 c));
      listed = elim (Bool-cases (is_wildcard cfg)) [
        | inl w ↦ inl w
        | inr w ↦ inr ((matches_any_iff cfg.allow bin args).0 (rw w at listed))
      ];
    }

Admitted-decide :
    (cfg : OsConfig) (bin : Text) (args : List Text)
    → Admitted cfg bin args
    → decide cfg bin args ≢ denied
Admitted-decide cfg bin args a =
    let found = entry a.listed in
    (decide_table cfg bin args).0.1 (
      a.on,
      filled cfg bin args found,
      a.bare,
      not_matched cfg.deny bin args a.not_denied,
      ground (arith, found),
    )
  where
    entry :
        (is_wildcard cfg ≡ true) ⊎ Covered bin args cfg.allow
        → (is_wildcard cfg ≡ true) ⊎ (matches_any cfg.allow bin args ≡ true)
    entry (inl w) = inl w
    entry (inr c) = inr ((matches_any_iff cfg.allow bin args).1 c)

-- The policy does not deny an invocation exactly when it is admitted, and asks for a confirmation
-- exactly when it is admitted and an entry of `confirm` covers it.
pub decide_iff :
    (cfg : OsConfig) (bin : Text) (args : List Text)
    → ((decide cfg bin args ≢ denied) ↔ Admitted cfg bin args)
      × ((decide cfg bin args ≡ confirmed) ↔ (Admitted cfg bin args × Covered bin args cfg.confirm))
decide_iff cfg bin args = (
  (decide-Admitted cfg bin args, Admitted-decide cfg bin args),
  (
    λ h.
        let (runs, asks) = (decide_table cfg bin args).1.0 h in
        (decide-Admitted cfg bin args runs, (matches_any_iff cfg.confirm bin args).0 asks),
    λ (a, c).
        (decide_table cfg bin args).1.1
          (Admitted-decide cfg bin args a, (matches_any_iff cfg.confirm bin args).1 c),
  ),
)
