-- ===== src/Chats/Eviction/Oldest.antt =====
-- The eviction keeps the bound, changes no entry that it keeps, and drops the oldest first.
use dotagent.Common.{
  ℕ, zero, suc, ◌+◌, ◌≤◌, ◌<◌, ◌≡◌, refl, ◌∙◌, sym, ◌⊎◌, inl, inr, Option, none, some, [], ◌∷◌,
  arith, ltb, leb, length, Bool-cases, Option-cases, some_inj,
}
use dotagent.Common.Text.{Text, text_eq, text_eq_iff}
use dotagent.Common.Table
use dotagent.Common.Table.{Table, get-remove, length-remove, refl_text}
use dotagent.Common.Table.Ordered.{IsOrdered, Above, get-Above, retain_keys-IsOrdered}
use dotagent.Chats.Eviction.{first_min, oldest, drop_key, evict_rounds, evict_oldest}

module _ {V : Type 0} (at : V → ℕ) where
  -- no entry is older
  abbrev Least : ℕ → Table V → Type 0
  Least t m = (j : Text) (u : V) → Table.get m j ≡ some u → t ≤ at u

  Least-cons :
      (t : ℕ) (j : Text) (w : V) (m : Table V) → t ≤ at w → Least t m → Least t ((j, w) ∷ m)
  unfolding Table.get
  Least-cons t j w m le h i u e = elim (Bool-cases (text_eq j i)) [
    | inl b ↦ let same = some_inj (rw b at e) in rw (← same) le
    | inr b ↦ h i u (rw b at e)
  ]

  -- a key of the rest is not the head's
  get-rest :
      (k : Text) (v : V) (m : Table V) (i : Text) (u : V)
      → Above k m
      → Table.get m i ≡ some u
      → Table.get ((k, v) ∷ m) i ≡ some u
  unfolding Table.get
  get-rest k v m i u a e = elim (Bool-cases (text_eq k i)) [
    | inl b ↦ absurd (cc (get-Above k m a, (text_eq_iff k i).0 b, e))
    | inr b ↦ rw b e
  ]

  -- nor the second's
  get-second :
      (k j : Text) (v w : V) (m : Table V) (i : Text) (u : V)
      → Above j m
      → Table.get ((k, v) ∷ m) i ≡ some u
      → Table.get ((k, v) ∷ (j, w) ∷ m) i ≡ some u
  unfolding Table.get
  get-second k j v w m i u a e = elim (Bool-cases (text_eq k i)) [
    | inl b ↦ rw b (rw b at e)
    | inr b ↦ rw b (get-rest j w m i u a (rw b at e))
  ]

  -- the entry that is chosen is there, and none is older
  first_min-Least :
      (k : Text) (v : V) (m : Table V)
      → Above k m
      → IsOrdered m
      → (w : V) × (Table.get ((k, v) ∷ m) (first_min at k (at v) m) ≡ some w)
        × (at w ≤ at v)
        × Least (at w) m
  unfolding Table.get first_min
  first_min-Least k v [] a o = (v, rw (refl_text k) refl, omega arith, λ j u e. absurd (cc e))
  first_min-Least k v ((j, w) ∷ m) a o = elim (Bool-cases (ltb (at w) (at v))) [
    | inl b ↦
        let (x, there, le, least) = first_min-Least j w m o.0 o.1 in
        (
          x,
          rw b (get-rest k v ((j, w) ∷ m) _ x a there),
          ground arith,
          Least-cons (at x) j w m le least,
        )
    | inr b ↦
        let (x, there, le, least) = first_min-Least k v m a.1 o.1 in
        (
          x,
          rw b (get-second k j v w m _ x o.0 there),
          le,
          Least-cons (at x) j w m (ground arith) least,
        )
  ]

  oldest-Least :
      (k : Text) (m : Table V)
      → IsOrdered m
      → oldest at m ≡ some k
      → (w : V) × (Table.get m k ≡ some w) × Least (at w) m
  unfolding oldest
  oldest-Least k [] o e = cc
  oldest-Least k ((j, v) ∷ m) o e =
      let (w, there, le, least) = first_min-Least j v m o.0 o.1 in
      (w, rw (← some_inj e) there, Least-cons (at w) j v m le least)

  drop_key-IsOrdered : (k : Option Text) (m : Table V) → IsOrdered m → IsOrdered (drop_key at k m)
  unfolding drop_key Table.remove
  drop_key-IsOrdered none m o = o
  drop_key-IsOrdered (some k) m o = retain_keys-IsOrdered _ m o

  no_oldest : (m : Table V) → oldest at m ≡ none → 0 < length m → ⊥
  unfolding oldest
  no_oldest [] n p = omega arith
  no_oldest ((k, v) ∷ m) n p = cc

  -- one round makes a table that is not empty smaller
  drop_oldest-lt :
      (m : Table V) → IsOrdered m → 0 < length m → length (drop_key at (oldest at m) m) < length m
  unfolding drop_key
  drop_oldest-lt m o p = elim (Option-cases (oldest at m)) [
    | inl n ↦ absurd (no_oldest m n p)
    | inr (k, e) ↦ let (w, there, least) = oldest-Least k m o e in rw e (length-remove m k w there)
  ]

  evict_rounds-le :
      (rounds max : ℕ) (m : Table V)
      → IsOrdered m
      → length m ≤ rounds + max
      → length (evict_rounds at rounds max m) ≤ max
  unfolding evict_rounds
  evict_rounds-le zero max m o le = omega (arith, le)
  evict_rounds-le (suc rounds) max m o le = elim (Bool-cases (leb (length m) max)) [
    | inl b ↦ rw b ground arith
    | inr b ↦
        let smaller = drop_oldest-lt m o (ground arith) in
        rw b (
          evict_rounds-le rounds max (drop_key at (oldest at m) m)
            (drop_key-IsOrdered (oldest at m) m o) (omega arith))
  ]

  -- an entry stays as it is or goes
  abbrev Kept : Text → Table V → Table V → Type 0
  Kept j m m' = (Table.get m' j ≡ none) ⊎ (Table.get m' j ≡ Table.get m j)

  drop_key-Kept : (j : Text) (k : Option Text) (m : Table V) → Kept j m (drop_key at k m)
  unfolding drop_key
  drop_key-Kept j none m = inr refl
  drop_key-Kept j (some k) m = elim (Bool-cases (text_eq j k)) [
    | inl b ↦ inl (rw (get-remove, b) refl)
    | inr b ↦ inr (rw (get-remove, b) refl)
  ]

  evict_rounds-Kept :
      (j : Text) (rounds max : ℕ) (m : Table V) → Kept j m (evict_rounds at rounds max m)
  unfolding evict_rounds
  evict_rounds-Kept j zero max m = inr refl
  evict_rounds-Kept j (suc rounds) max m = elim (Bool-cases (leb (length m) max)) [
    | inl b ↦ rw b (inr refl)
    | inr b ↦ rw b (elim (evict_rounds-Kept j rounds max (drop_key at (oldest at m) m)) [
      | inl n ↦ inl n
      | inr e ↦ elim (drop_key-Kept j (oldest at m) m) [ inl n ↦ inl (e ∙ n) | inr s ↦ inr (e ∙ s) ]
    ])
  ]

  -- what a round drops is no newer than any entry
  drop_oldest-Least :
      (j : Text) (v : V) (m : Table V)
      → IsOrdered m
      → Table.get m j ≡ some v
      → Table.get (drop_key at (oldest at m) m) j ≡ none
      → Least (at v) m
  unfolding drop_key
  drop_oldest-Least j v m o there gone = elim (Option-cases (oldest at m)) [
    | inl n ↦ absurd (cc (there, rw n at gone))
    | inr (k, e) ↦
        let (w, chosen, least) = oldest-Least k m o e in
        elim (Bool-cases (text_eq j k)) [
          | inl b ↦
              let same : w ≡ v = cc (chosen, there, (text_eq_iff j k).0 b) in rw (← same) least
          | inr b ↦ absurd (cc (there, rw (e, get-remove, b) at gone))
        ]
  ]

  Kept-some :
      (j : Text) (m m' : Table V) (u : V)
      → Kept j m m'
      → Table.get m' j ≡ some u
      → Table.get m j ≡ some u
  Kept-some j m m' u (inl n) e = cc
  Kept-some j m m' u (inr s) e = sym s ∙ e

  evict_rounds-oldest_first :
      (rounds max : ℕ) (m : Table V) (j k : Text) (v u : V)
      → IsOrdered m
      → Table.get m j ≡ some v
      → Table.get (evict_rounds at rounds max m) j ≡ none
      → Table.get (evict_rounds at rounds max m) k ≡ some u
      → at v ≤ at u
  unfolding evict_rounds
  evict_rounds-oldest_first zero max m j k v u o there gone stays = absurd (cc (there, gone))
  evict_rounds-oldest_first (suc rounds) max m j k v u o there gone stays =
      let m' = drop_key at (oldest at m) m in
      elim (Bool-cases (leb (length m) max)) [
        | inl b ↦ absurd (cc (there, rw b at gone))
        | inr b ↦ elim (Option-cases (Table.get m' j)) [
          | inl n ↦
              let kept = evict_rounds-Kept k rounds max m' in
              let before = Kept-some k m' _ u kept (rw b at stays) in
              drop_oldest-Least j v m o there n k u
                (Kept-some k m m' u (drop_key-Kept k (oldest at m) m) before)
          | inr (v', e) ↦
              let same : v' ≡ v =
                some_inj (sym (Kept-some j m m' v' (drop_key-Kept j (oldest at m) m) e) ∙ there) in
              evict_rounds-oldest_first rounds max m' j k v u (drop_key-IsOrdered (oldest at m) m o)
                (rw same at e) (rw b at gone) (rw b at stays)
        ]
      ]

  -- The eviction leaves at most `max` entries.
  pub evict_oldest-le : (max : ℕ) (m : Table V) → IsOrdered m → length (evict_oldest at max m) ≤ max
  unfolding evict_oldest
  evict_oldest-le max m o = evict_rounds-le (length m) max m o (omega arith)

  pub evict_oldest-Kept : (j : Text) (max : ℕ) (m : Table V) → Kept j m (evict_oldest at max m)
  unfolding evict_oldest
  evict_oldest-Kept j max m = evict_rounds-Kept j (length m) max m

  -- An entry that is evicted is no newer than any entry that stays.
  pub evict_oldest-oldest_first :
      (max : ℕ) (m : Table V) (j k : Text) (v u : V)
      → IsOrdered m
      → Table.get m j ≡ some v
      → Table.get (evict_oldest at max m) j ≡ none
      → Table.get (evict_oldest at max m) k ≡ some u
      → at v ≤ at u
  unfolding evict_oldest
  evict_oldest-oldest_first max m j k v u o there gone stays =
      evict_rounds-oldest_first (length m) max m j k v u o there gone stays
