-- ===== src/Scheduler/Windows.antt =====
-- `expected_at` and what it is made of, and `window_key`.
pub mod Interval
pub mod CronDay
use dotagent.Common.{
  ℕ, zero, suc, ◌+◌, ◌*◌, Bool, ◌&&◌, ◌||◌, Option, none, some, List, [], ◌∷◌, any, ltb, leb, ◌==◌,
  if◌then◌else◌, is_some_and, unwrap_or,
}
use dotagent.Common.Int.{max_zero, div_euclid}
use dotagent.Time.{Instant, Calendar, num_minutes, add_minutes, from_timestamp}
use dotagent.Manifest.{Schedule, cron, interval, expression, Heartbeat}

infixl 5 ◌>>=◌
abbrev ◌>>=◌ : {A B : Type 0} → Option A → (A → Option B) → Option B
none >>= f = none
some a >>= f = f a

-- `Option::filter`
abbrev keep_if : (Instant → Bool) → Option Instant → Option Instant
keep_if p none = none
keep_if p (some w) = if p w then some w else none

unfoldable pub positive_interval : ℕ → Option ℕ
positive_interval zero = none
positive_interval (suc n) = some (suc n)

-- one round of the loop over `hours`
abbrev pick_hour : ℕ → Option ℕ → ℕ
pick_hour h none = h
pick_hour h (some prev) = if ltb h prev then prev else h

-- the loop over `hours`: the latest hour whose window is not after (now_h, now_m)
unfoldable pub last_hour : List ℕ → ℕ → ℕ → ℕ → Option ℕ → Option ℕ
last_hour [] minute now_h now_m last_h = last_h
last_hour (h ∷ hours) minute now_h now_m last_h =
    last_hour hours minute now_h now_m (
      if ltb h now_h || (h == now_h && leb minute now_m) then some (pick_hour h last_h) else last_h)

unfoldable pub last_success_of : Option Heartbeat → Option Instant
last_success_of heartbeat = do hb ← heartbeat; s ← hb.last_success_at; some (from_timestamp s)

abbrev pub contains : List ℕ → ℕ → Bool
contains xs x = any (λ y. y == x) xs

module _ (cal : Calendar) where
  unfoldable pub cron_expected_at : List ℕ → List ℕ → ℕ → Instant → Option Instant
  unfolding last_hour
  cron_expected_at weekdays hours minute now =
      if contains weekdays (cal.weekday now)
      then (do
        h ← last_hour hours minute (cal.hour now) (cal.minute now) none
        cal.at_time now h minute)
      else none

  -- the arithmetic sequence of ticks anchored on the last success
  unfoldable pub interval_expected_at : ℕ → Instant → Option Instant → Option Instant
  unfolding positive_interval num_minutes
  interval_expected_at interval_minutes now none = none
  interval_expected_at interval_minutes now (some ls) = elim (positive_interval interval_minutes) [
    | none ↦ some ls
    | some iv ↦
        let ticks = max_zero (div_euclid (num_minutes now ls) iv) in
        some (add_minutes ls (ticks * iv))
  ]

  unfoldable pub expected_at : Schedule → Instant → Option Instant → Option Instant
  unfolding cron_expected_at interval_expected_at
  expected_at (cron _ weekdays hours minute _ _) now last_success =
      cron_expected_at weekdays hours minute now
  expected_at (interval _ interval_minutes _ _) now last_success =
      interval_expected_at interval_minutes now last_success
  expected_at (expression _ _ _ _) now last_success = none

  unfoldable pub window_key :
      Schedule → Option Heartbeat → Option Instant → Instant → Option Instant
  unfolding expected_at last_success_of
  window_key schedule heartbeat last_dispatched now =
      let last_success = last_success_of heartbeat in
      expected_at schedule now last_success >>= λ expected.
      if is_some_and last_success (λ ls. leb expected ls)
      then some (unwrap_or (keep_if (λ w. leb w expected) last_dispatched) expected)
      else some expected

-- the first window that an interval schedule missed after its last success
unfoldable pub first_missed_window : Schedule → Option Instant → Option Instant
unfolding positive_interval
first_missed_window (interval _ interval_minutes _ _) last_success = do
  iv ← positive_interval interval_minutes
  ls ← last_success
  some (add_minutes ls iv)
first_missed_window _ last_success = none
