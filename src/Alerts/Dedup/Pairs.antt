-- ===== src/Alerts/Dedup/Pairs.antt =====
-- Ending the episodes of one pair of an agent and a schedule.
use dotagent.Common.{
  ℕ, ◌≡◌, refl, Bool, true, false, not, ◌&&◌, none, some, [], ◌∷◌, ◌++◌, arith, if◌then◌else◌,
  Bool-cases, inl, inr, any, ◌==◌, append_assoc,
}
use dotagent.Common.Text.{Text, text_eq, text_eq_iff, starts_with}
use dotagent.Common.Table
use dotagent.Common.Table.{Table, any_key, retain_keys, get-retain_keys, refl_text}
use dotagent.Alerts.Dedup.{
  NotifyDedup, may_speak, alert_key, clear_pair, pair_prefix, slash, claim_alert, record_episode,
}

starts_with-append : (s t : Text) → starts_with s (s ++ t) ≡ true
starts_with-append [] t = refl
starts_with-append (c ∷ s) t = ground (arith, starts_with-append s t)

prefix-key : (a s e : Text) → pair_prefix a s ++ e ≡ alert_key a s e
unfolding alert_key
prefix-key a s e = simp append_assoc

own_prefix : (a s e : Text) → starts_with (pair_prefix a s) (alert_key a s e) ≡ true
own_prefix a s e = rw (← prefix-key a s e) (starts_with-append (pair_prefix a s) e)

-- names without `/`, as agent names and schedule ids are
abbrev pub has_slash : Text → Bool
has_slash = any (λ c. c == b'/')

-- A slash-free name before a slash is determined by the text that begins with it.
split_first :
    (a b x y : Text)
    → has_slash a ≡ false
    → has_slash b ≡ false
    → starts_with (a ++ (slash ++ x)) (b ++ (slash ++ y)) ≡ true
    → (a ≡ b) × (starts_with x y ≡ true)
split_first [] [] x y p q h = (refl, ground arith)
split_first [] (d ∷ b) x y p q h = absurd (ground arith)
split_first (c ∷ a) [] x y p q h = absurd (ground arith)
split_first (c ∷ a) (d ∷ b) x y p q h = ground (arith, split_first a b x y)

module _ (a s a' s' e : Text) (ha : has_slash a ≡ false) (hs : has_slash s ≡ false)
    (ha' : has_slash a' ≡ false) (hs' : has_slash s' ≡ false) where
  -- the prefix of a pair tells its own keys from those of every other pair
  prefix-alert_key :
      starts_with (pair_prefix a s) (alert_key a' s' e) ≡ (text_eq a a' && text_eq s s')
  unfolding alert_key
  prefix-alert_key = elim (Bool-cases (starts_with (pair_prefix a s) (alert_key a' s' e))) [
    | inl yes_prefix ↦
        let (same, rest) = split_first a a' (s ++ slash) (s' ++ (slash ++ e)) ha ha' yes_prefix in
        let (same', _) = split_first s s' [] e hs hs' rest in
        ground (arith, text_eq_iff a a', text_eq_iff s s')
    | inr no_prefix ↦ ground (arith, text_eq_iff a a', text_eq_iff s s', own_prefix a s e)
  ]

  -- Ending the episodes of a pair forgets every alert of that pair, whatever its event, and no alert
  -- of another pair.
  pub get-clear_pair :
      (table : NotifyDedup)
      → Table.get (clear_pair table a s).0 (alert_key a' s' e)
        ≡ (if text_eq a a' && text_eq s s' then none else Table.get table (alert_key a' s' e))
  unfolding clear_pair
  get-clear_pair table = rw (get-retain_keys, prefix-alert_key) ground arith

-- Once a pair has been healthy, its next failure is announced at once, as the first of its episode.
pub claim-clear_pair :
    (table : NotifyDedup) (saved : Bool) (a s e : Text) (now : ℕ)
    → (claim_alert (clear_pair table a s).0 saved a s e now).1
      ≡ some (record { first_notified_at = now; last_notified_at = now; count = 1 })
unfolding clear_pair claim_alert may_speak record_episode
claim-clear_pair table saved a s e now = rw (get-retain_keys, own_prefix) refl

-- Where no key is cleared, the table is as it was.
retain_keys-none {ℓ} :
    {V : Type ℓ} (p : Text → Bool) (m : Table V)
    → any_key p m ≡ false
    → retain_keys (λ k. not (p k)) m ≡ m
unfolding any_key retain_keys
retain_keys-none p [] h = refl
retain_keys-none p ((k, v) ∷ m) h = ground (arith, retain_keys-none p m)

-- A table that `clear_pair` reports as unchanged is unchanged.
pub clear_pair-kept :
    (t : NotifyDedup) (a s : Text) → (clear_pair t a s).1 ≡ false → (clear_pair t a s).0 ≡ t
unfolding clear_pair
clear_pair-kept t a s h = retain_keys-none (λ k. starts_with (pair_prefix a s) k) t h
