-- ===== src/Scheduler/Windows/Interval.antt =====
-- The windows of an interval schedule: the greatest tick that is not in the future.
use dotagent.Common.{ℕ, zero, suc, ◌+◌, ◌-◌, ◌*◌, ◌/◌, ◌≤◌, ◌<◌, ◌≡◌, some, arith, le→leb}
use dotagent.Time.{Instant, Calendar, add_minutes, minute_ns}
use dotagent.Manifest.{ScheduleOverrides, interval}
use dotagent.Common.Text.{Text}
use mathlib.Core.List.{List}
use native.Mathlib.Nat.{div-mul-le_self, lt-div-mul-add}
use dotagent.Scheduler.Windows.{expected_at}

-- n / i * i is within one step below n
pub div_bounds : (n i : ℕ) → (n / suc i * suc i ≤ n) × (n < n / suc i * suc i + suc i)
div_bounds n i = (div-mul-le_self n (suc i), lt-div-mul-add (omega arith))

module _ (cal : Calendar) (id : Text) (args : List Text) (ov : ScheduleOverrides) where
  -- With an anchor that is not in the future, the window is a whole number of intervals after the
  -- anchor, has begun, and the next tick has not: the greatest tick ≤ now.
  pub expected_at-interval :
      (iv : ℕ) (now ls : Instant)
      → 0 < iv
      → ls ≤ now
      → (k : ℕ) × (expected_at cal (interval id iv args ov) now (some ls)
          ≡ some (add_minutes ls (k * iv)))
        × (add_minutes ls (k * iv) ≤ now)
        × (now < add_minutes ls (k * iv + iv))
  unfolding expected_at
  expected_at-interval zero now ls pos le = absurd (omega arith)
  expected_at-interval (suc i) now ls pos le =
      let m = (now - ls) / minute_ns in
      let b = div_bounds m i in (m / suc i, rw (le→leb ls now le), omega arith, omega arith)
