-- ===== src/Scheduler/Upcoming/Ahead.antt =====
-- The next window is ahead of now, for every kind of schedule, and none of those of the other
-- agents comes before the daemon's next event.
use mathlib.Core.List.{Memᴰ}
use native.Mathlib.Nat.{div-eq_of_lt}
use dotagent.Common.{
  ℕ, zero, suc, ◌+◌, ◌-◌, ◌*◌, ◌/◌, ◌≤◌, ◌<◌, ◌≡◌, ◌⊎◌, inl, inr, Option, none, some, List, [], ◌∷◌,
  arith, ltb, leb, refl, Bool-cases, le→leb, some_inj, sym, ap, ◌∙◌, if◌then◌else◌,
}
use dotagent.Common.Text.{Text}
use dotagent.Time.{Instant, Calendar, add_minutes, minute_ns, day_ns}
use dotagent.Manifest.{Schedule, ScheduleOverrides, cron, interval, expression}
use dotagent.Scheduler.Windows.{expected_at}
use dotagent.Scheduler.Windows.Interval.{div_bounds}
use dotagent.Scheduler.Upcoming.{
  found, search_hours, search_days, sort, next_occurrence, AgentSchedulePair, compute_next_event,
  earlier,
}

module _ (cal : Calendar) where
  search_hours-ahead :
      (hours : List ℕ) (minute : ℕ) (day now t : Instant)
      → search_hours cal hours minute day now ≡ found t
      → now < t
  unfolding search_hours
  search_hours-ahead [] minute day now t e = cc
  search_hours-ahead (h ∷ hours) minute day now t e =
      ground (arith, search_hours-ahead hours minute day now t)

  search_days-ahead :
      (left k : ℕ) (weekdays hours : List ℕ) (minute : ℕ) (now t : Instant)
      → search_days cal left k weekdays hours minute now ≡ some t
      → now < t
  unfolding search_days
  search_days-ahead zero k weekdays hours minute now t e = cc
  search_days-ahead (suc left) k weekdays hours minute now t e = ground (
    arith,
    search_days-ahead left (suc k) weekdays hours minute now t,
    search_hours-ahead hours minute (now + k * day_ns) now t,
  )

  interval_ahead :
      (id : Text) (iv : ℕ) (args : List Text) (ov : ScheduleOverrides) (now : Instant)
      (last : Option Instant) (t : Instant)
      → next_occurrence cal (interval id iv args ov) now last ≡ some t
      → now < t
  unfolding next_occurrence
  interval_ahead id zero args ov now last t e = cc
  interval_ahead id (suc i) args ov now none t e = ground arith
  interval_ahead id (suc i) args ov now (some ls) t e =
      let b = div_bounds ((now - ls) / minute_ns) i in ground arith

  cron_ahead :
      (id : Text) (weekdays hours : List ℕ) (minute : ℕ) (args : List Text) (ov : ScheduleOverrides)
      (now : Instant) (last : Option Instant) (t : Instant)
      → next_occurrence cal (cron id weekdays hours minute args ov) now last ≡ some t
      → now < t
  unfolding next_occurrence
  cron_ahead id [] hours minute args ov now last t e = cc
  cron_ahead id (d ∷ ds) [] minute args ov now last t e = cc
  cron_ahead id (d ∷ ds) (h ∷ hs) minute args ov now last t e =
      search_days-ahead 8 0 (d ∷ ds) (sort (h ∷ hs)) minute now t e

  expression_ahead :
      (id text : Text) (args : List Text) (ov : ScheduleOverrides) (now : Instant)
      (last : Option Instant) (t : Instant)
      → next_occurrence cal (expression id text args ov) now last ≡ some t
      → now < t
  unfolding next_occurrence
  expression_ahead id text args ov now last t e = cc

  -- The next occurrence is strictly after now, whatever the schedule and the last success.
  pub next_occurrence-ahead :
      (s : Schedule) (now : Instant) (last : Option Instant) (t : Instant)
      → next_occurrence cal s now last ≡ some t
      → now < t
  next_occurrence-ahead (cron id days hours minute args ov) now last t e =
      cron_ahead id days hours minute args ov now last t e
  next_occurrence-ahead (interval id iv args ov) now last t e =
      interval_ahead id iv args ov now last t e
  next_occurrence-ahead (expression id text args ov) now last t e =
      expression_ahead id text args ov now last t e

  -- the two functions at an anchor that is not in the future
  expected_at-anchored :
      (id : Text) (i : ℕ) (args : List Text) (ov : ScheduleOverrides) (now ls : Instant)
      → ls ≤ now
      → expected_at cal (interval id (suc i) args ov) now (some ls)
        ≡ some (add_minutes ls ((now - ls) / minute_ns / suc i * suc i))
  unfolding expected_at
  expected_at-anchored id i args ov now ls le = rw (le→leb ls now le)

  next_occurrence-anchored :
      (id : Text) (i : ℕ) (args : List Text) (ov : ScheduleOverrides) (now ls : Instant)
      → ls ≤ now
      → next_occurrence cal (interval id (suc i) args ov) now (some ls) ≡ (
          if ltb now (add_minutes ls (suc i))
          then some (add_minutes ls (suc i))
          else some (add_minutes ls (((now - ls) / minute_ns / suc i + 1) * suc i)))
  unfolding next_occurrence
  next_occurrence-anchored id i args ov now ls le = rw (le→leb ls now le)

  -- From an anchor that is not in the future, the next occurrence of an interval schedule is one
  -- interval after the window that is due.
  pub next-eq-expected-add :
      (id : Text) (iv : ℕ) (args : List Text) (ov : ScheduleOverrides) (now ls w : Instant)
      → 0 < iv
      → ls ≤ now
      → expected_at cal (interval id iv args ov) now (some ls) ≡ some w
      → next_occurrence cal (interval id iv args ov) now (some ls) ≡ some (add_minutes w iv)
  next-eq-expected-add id zero args ov now ls w p le e = absurd (omega arith)
  next-eq-expected-add id (suc i) args ov now ls w p le e =
      let q = (now - ls) / minute_ns / suc i in
      let due = some_inj (sym (expected_at-anchored id i args ov now ls le) ∙ e) in
      rw (next_occurrence-anchored id i args ov now ls le)
        (elim (Bool-cases (ltb now (add_minutes ls (suc i)))) [
          | inl b ↦
              let below : (now - ls) / minute_ns < suc i = ground arith in
              let first = ap (λ (x : ℕ). x * suc i) (div-eq_of_lt below) in
              rw b (ap (λ (x : ℕ). some x) (omega (arith, first)))
          | inr b ↦ rw b (ap (λ (x : ℕ). some x) (omega arith))
        ])

earlier-one :
    (o u : Option Instant) (e : Instant) → earlier o u ≡ some e → (o ≡ some e) ⊎ (u ≡ some e)
unfolding earlier
earlier-one none u e h = inr h
earlier-one (some t) none e h = inl h
earlier-one (some t) (some s) e h = ground arith

earlier-le_left :
    (t : Instant) (u : Option Instant) → (e : Instant) × (earlier (some t) u ≡ some e) × (e ≤ t)
unfolding earlier
earlier-le_left t none = (t, refl, omega arith)
earlier-le_left t (some s) = elim (Bool-cases (leb t s)) [
  | inl b ↦ (t, rw b, omega arith)
  | inr b ↦ (s, rw b, ground arith)
]

earlier-le_right :
    (t : Option Instant) (u : Instant) → (e : Instant) × (earlier t (some u) ≡ some e) × (e ≤ u)
unfolding earlier
earlier-le_right none u = (u, refl, omega arith)
earlier-le_right (some t) u = elim (Bool-cases (leb t u)) [
  | inl b ↦ (t, rw b, ground arith)
  | inr b ↦ (u, rw b, omega arith)
]

module _ (cal : Calendar) (now : Instant) where
  -- Whatever event the daemon sleeps towards is strictly ahead.
  pub compute_next_event-ahead :
      (pairs : List AgentSchedulePair) (e : Instant)
      → compute_next_event cal pairs now ≡ some e
      → now < e
  unfolding compute_next_event
  compute_next_event-ahead [] e h = cc
  compute_next_event-ahead (p ∷ pairs) e h =
      elim (earlier-one (next_occurrence cal p.schedule now p.last_success) _ e h) [
        | inl a ↦ next_occurrence-ahead cal p.schedule now p.last_success e a
        | inr b ↦ compute_next_event-ahead pairs e b
      ]

  -- The daemon has a next event at or before the next occurrence of every agent's schedule.
  pub compute_next_event-le :
      (pairs : List AgentSchedulePair) (p : AgentSchedulePair) (t : Instant)
      → Memᴰ p pairs
      → next_occurrence cal p.schedule now p.last_success ≡ some t
      → (e : Instant) × (compute_next_event cal pairs now ≡ some e) × (e ≤ t)
  unfolding compute_next_event
  compute_next_event-le [] p t m h = elim m [ ]
  compute_next_event-le (q ∷ pairs) p t (Memᴰ.head same) h =
      rw (← same, h) (earlier-le_left t (compute_next_event cal pairs now))
  compute_next_event-le (q ∷ pairs) p t (Memᴰ.tail m) h =
      let (e, is, le) = compute_next_event-le pairs p t m h in
      let (f, both, le') = earlier-le_right (next_occurrence cal q.schedule now q.last_success) e in
      (f, rw is both, omega arith)
