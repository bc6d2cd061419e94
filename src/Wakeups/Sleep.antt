-- ===== src/Wakeups/Sleep.antt =====
-- The daemon sleeps past nothing that it knows to be ahead.
use dotagent.Common.{
  ℕ, ◌+◌, ◌*◌, refl, Bool-cases, some_inj, ◌≤◌, ◌<◌, ◌≡◌, ◌⊎◌, inl, inr, Option, none, some, arith,
  ltb,
}
use dotagent.Time.{Instant, Calendar, add_minutes}
use dotagent.Wakeups.{
  max_sleep_minutes, retention_hour, first_after, nearer, compute_sleep_target, next_retention_at,
}

nearer-bounds :
    (now cap best : Instant) (o : Option Instant)
    → now < best
    → best ≤ cap
    → (now < nearer now cap o best) × (nearer now cap o best ≤ best)
nearer-bounds now cap best none p q = omega arith
nearer-bounds now cap best (some t) p q = ground arith

nearer-le :
    (now cap best t : Instant) (o : Option Instant)
    → now < t
    → best ≤ cap
    → o ≡ some t
    → nearer now cap o best ≤ t
nearer-le now cap best t none p q e = cc
nearer-le now cap best t (some u) p q e = ground (arith, some_inj e)

module _ (now : Instant) (event summary retention : Option Instant) where
  -- The daemon wakes up after now, half an hour later at most.
  pub compute_sleep_target-bounds :
      (now < compute_sleep_target now event summary retention)
      × (compute_sleep_target now event summary retention ≤ add_minutes now max_sleep_minutes)
  unfolding compute_sleep_target
  compute_sleep_target-bounds =
      let cap = add_minutes now max_sleep_minutes in
      let r = nearer-bounds now cap cap retention (omega arith) (omega arith) in
      let s = nearer-bounds now cap _ summary r.0 r.1 in
      let e = nearer-bounds now cap _ event s.0 (omega (arith, s.1, r.1)) in
      (e.0, omega (arith, e.1, s.1, r.1))

  -- It wakes up no later than any of the three that is ahead.
  pub compute_sleep_target-le :
      (t : Instant)
      → now < t
      → (event ≡ some t) ⊎ (summary ≡ some t) ⊎ (retention ≡ some t)
      → compute_sleep_target now event summary retention ≤ t
  unfolding compute_sleep_target
  compute_sleep_target-le t p h =
      let cap = add_minutes now max_sleep_minutes in
      let r = nearer-bounds now cap cap retention (omega arith) (omega arith) in
      let s = nearer-bounds now cap _ summary r.0 r.1 in
      let e = nearer-bounds now cap _ event s.0 (omega (arith, s.1, r.1)) in
      elim h [
        | inl x ↦ nearer-le now cap _ t event p (omega (arith, s.1, r.1)) x
        | inr (inl x) ↦
            omega (arith, e.1, nearer-le now cap (nearer now cap retention cap) t summary p r.1 x)
        | inr (inr x) ↦ omega (arith, e.1, s.1, nearer-le now cap cap t retention p (omega arith) x)
      ]

-- starts of consecutive days come in order
abbrev pub InOrder : (ℕ → ℕ → Option Instant) → Type 0
InOrder local_at =
    (d time t u : ℕ) → local_at d time ≡ some t → local_at (d + 1) time ≡ some u → t < u

first_after-le :
    (now s : Instant) (o p : Option Instant)
    → ((t u : ℕ) → o ≡ some t → p ≡ some u → t < u)
    → now < s
    → (o ≡ some s) ⊎ (p ≡ some s)
    → (t : Instant) × (first_after now o p ≡ some t) × (now < t) × (t ≤ s)
first_after-le now s none none ordered ahead h = absurd (ground arith)
first_after-le now s none (some u) ordered ahead h = (u, ground arith, ground arith, ground arith)
first_after-le now s (some t) none ordered ahead h = (t, ground arith, ground arith, ground arith)
first_after-le now s (some t) (some u) ordered ahead h =
    let before = ordered t u refl refl in
    elim (Bool-cases (ltb now t)) [
      | inl b ↦ (t, rw b refl, ground arith, ground (arith, before))
      | inr b ↦ (u, ground (arith, before), ground (arith, before), ground (arith, before))
    ]

module _ (cal : Calendar) (local_at : ℕ → ℕ → Option Instant) (ordered : InOrder local_at)
    (now : Instant) (s : Instant) (ahead : now < s) where
  -- The daemon never sleeps past the start of a retention sweep, of today or of tomorrow, that is
  -- still ahead, on the same assumption.
  pub compute_sleep_target-retention :
      (event summary : Option Instant)
      → (local_at (cal.date now) (retention_hour * 3600) ≡ some s)
        ⊎ (local_at (cal.date now + 1) (retention_hour * 3600) ≡ some s)
      → compute_sleep_target now event summary (next_retention_at cal local_at now) ≤ s
  unfolding next_retention_at
  compute_sleep_target-retention event summary h =
      let (t, next, later, le) =
        first_after-le now s _ _ (ordered (cal.date now) (retention_hour * 3600)) ahead h in
      let retention = next_retention_at cal local_at now in
      omega
        (arith, le, compute_sleep_target-le now event summary retention t later (inr (inr next)))
