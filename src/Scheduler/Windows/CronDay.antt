-- ===== src/Scheduler/Windows/CronDay.antt =====
-- The window of a cron schedule: the last of the day's windows that has begun.
use dotagent.Common.{
  ℕ, ◌≤◌, ◌≡◌, ◌⊎◌, inl, inr, Bool, true, ◌&&◌, ◌||◌, Option, none, some, List, [], ◌∷◌, arith, ltb,
  leb, ◌==◌, if◌then◌else◌, Bool-cases, Option-cases, ◌∙◌,
}
use dotagent.Common.Text.{Text}
use dotagent.Time.{Instant, Calendar, CalendarLaws, WallLe}
use dotagent.Manifest.{ScheduleOverrides, cron}
use dotagent.Scheduler.Windows.{last_hour, expected_at, cron_expected_at, contains}

-- the test of the loop
abbrev begun : ℕ → ℕ → ℕ → ℕ → Bool
begun h minute now_h now_m = ltb h now_h || (h == now_h && leb minute now_m)

-- What the loop returns is the hour that it started from or one of the list, which has begun.
last_hour_sound :
    (hours : List ℕ) (minute now_h now_m : ℕ) (acc : Option ℕ) (h : ℕ)
    → last_hour hours minute now_h now_m acc ≡ some h
    → (acc ≡ some h) ⊎ ((contains hours h ≡ true) × WallLe h minute now_h now_m)
unfolding last_hour
last_hour_sound [] minute now_h now_m acc h e = inl e
last_hour_sound (x ∷ xs) minute now_h now_m acc h e =
    ground (arith, last_hour_sound xs minute now_h now_m _ h e)

-- The hour that the loop starts from is not above the one that it returns.
last_hour-ge_start :
    (hours : List ℕ) (minute now_h now_m a h : ℕ)
    → last_hour hours minute now_h now_m (some a) ≡ some h
    → a ≤ h
unfolding last_hour
last_hour-ge_start [] minute now_h now_m a h e = ground arith
last_hour-ge_start (x ∷ xs) minute now_h now_m a h e =
    elim (Bool-cases (begun x minute now_h now_m)) [
      | inl b ↦
          let higher = last_hour-ge_start xs minute now_h now_m (if ltb x a then a else x) h in
          ground (arith, higher (rw b at e))
      | inr b ↦ last_hour-ge_start xs minute now_h now_m a h (rw b at e)
    ]

-- Every hour of the list that has begun is at most the one that the loop returns.
last_hour-latest :
    (hours : List ℕ) (minute now_h now_m : ℕ) (acc : Option ℕ) (h x : ℕ)
    → last_hour hours minute now_h now_m acc ≡ some h
    → contains hours x ≡ true
    → begun x minute now_h now_m ≡ true
    → x ≤ h
unfolding last_hour
last_hour-latest [] minute now_h now_m acc h x e m w = cc
last_hour-latest (y ∷ ys) minute now_h now_m acc h x e m w = elim (Bool-cases (y == x)) [
  | inl same ↦ at_head y ys minute now_h now_m acc h x e same w
  | inr other ↦ last_hour-latest ys minute now_h now_m _ h x e (rw other at m) w
]
  where
    at_head :
        (y : ℕ) (ys : List ℕ) (minute now_h now_m : ℕ) (acc : Option ℕ) (h x : ℕ)
        → last_hour (y ∷ ys) minute now_h now_m acc ≡ some h
        → (y == x) ≡ true
        → begun x minute now_h now_m ≡ true
        → x ≤ h
    at_head y ys minute now_h now_m none h x e s w =
        ground (arith, last_hour-ge_start ys minute now_h now_m y h)
    at_head y ys minute now_h now_m (some a) h x e s w = ground (
      arith,
      last_hour-ge_start ys minute now_h now_m y h,
      last_hour-ge_start ys minute now_h now_m a h,
    )

wall_iff_begun : (h m h' m' : ℕ) → WallLe h m h' m' → begun h m h' m' ≡ true
wall_iff_begun h m h' m' w = ground arith

module _ (cal : Calendar) where
  -- the parts of a window that is due
  cron-inv :
      (weekdays hours : List ℕ) (minute : ℕ) (now r : Instant)
      → cron_expected_at cal weekdays hours minute now ≡ some r
      → (h : ℕ) × (contains weekdays (cal.weekday now) ≡ true)
        × (last_hour hours minute (cal.hour now) (cal.minute now) none ≡ some h)
        × (cal.at_time now h minute ≡ some r)
  unfolding cron_expected_at
  cron-inv weekdays hours minute now r e = elim (Bool-cases (contains weekdays (cal.weekday now))) [
    | inr b ↦ absurd (ground arith)
    | inl b ↦ elim (Option-cases (last_hour hours minute (cal.hour now) (cal.minute now) none)) [
      | inl n ↦ absurd (ground arith)
      | inr (h, p) ↦ (h, b, p, ground arith)
    ]
  ]

module _ (cal : Calendar) (laws : CalendarLaws cal) (id : Text) (weekdays hours : List ℕ)
    (minute : ℕ) (args : List Text) (ov : ScheduleOverrides) (now : Instant)
    (last_success : Option Instant) (r : Instant)
    (e : expected_at cal (cron id weekdays hours minute args ov) now last_success ≡ some r) where
  open laws use {at-hour, at-minute, at-date, date-weekday, date-at, at-le}

  -- A cron window is on one of the weekdays, at one of the hours and at the minute of the schedule,
  -- on the date of now, and has begun.
  pub expected_at-cron :
      (contains weekdays (cal.weekday r) ≡ true)
      × (contains hours (cal.hour r) ≡ true)
      × (cal.minute r ≡ minute)
      × (cal.date r ≡ cal.date now)
      × (r ≤ now)
  unfolding expected_at
  expected_at-cron =
      let (h, day, hour, built) = cron-inv cal weekdays hours minute now r e in
      let same_day = at-date now h minute r built in
      elim (last_hour_sound hours minute (cal.hour now) (cal.minute now) none h hour) [
        | inl p ↦ absurd (cc)
        | inr (listed, w) ↦ (
          rw (date-weekday r now same_day) day,
          rw (at-hour now h minute r built) listed,
          at-minute now h minute r built,
          same_day,
          (at-le now h minute r built).1 w,
        )
      ]

  -- It is the last such: a window of the same date at another hour of the schedule that has begun
  -- is not later.
  pub expected_at-cron-latest :
      (h t : ℕ) → contains hours h ≡ true → cal.at_time now h minute ≡ some t → t ≤ now → t ≤ r
  unfolding expected_at
  expected_at-cron-latest h t listed built le =
      let (last, day, hour, found) = cron-inv cal weekdays hours minute now r e in
      let in_time = wall_iff_begun h minute _ _ ((at-le now h minute t built).0 le) in
      let earlier = last_hour-latest hours minute _ _ none last h hour listed in_time in
      let there = date-at r now h minute (at-date now last minute r found) in
      let hour_r = at-hour now last minute r found in
      let minute_r = at-minute now last minute r found in
      (at-le r h minute t (there ∙ built)).1 (omega arith)
