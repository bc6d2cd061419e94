-- ===== src/Wakeups.antt =====
-- When the daemon wakes up: the windows of the daily summary and of the retention sweep, and
-- `compute_sleep_target`, of crates/dotagent/src/commands/daemon.rs.
pub mod Sleep
pub mod Summary
use dotagent.Common.{
  ℕ, zero, suc, ◌+◌, ◌-◌, ◌*◌, Bool, true, false, not, ◌&&◌, Option, none, some, List, [], ◌∷◌, min,
  max, ltb, leb, ◌==◌, if◌then◌else◌, or_option,
}
use dotagent.Time.{Instant, Calendar, add_minutes}

abbrev pub max_sleep_minutes : ℕ
max_sleep_minutes = 30

abbrev pub retention_hour : ℕ
retention_hour = 3

abbrev pub retention_window_minutes : ℕ
retention_window_minutes = 30

-- The parts of `DailySummaryConfig` that decide: a time of day is its second, and `time` is what
-- `time_or_default` parses.
pub record DailySummaryConfig : Type 0 where
  pub enabled : Bool
  pub time : ℕ
  pub grace_minutes : ℕ

-- `clamp(1, 24 * 60)`
unfoldable pub effective_grace_minutes : DailySummaryConfig → ℕ
effective_grace_minutes cfg = min (max cfg.grace_minutes 1) 1440

-- a date other than the one that is on record
abbrev not_on : Option ℕ → ℕ → Bool
not_on none date = true
not_on (some d) date = not (d == date)

-- `then_some`
abbrev unless_on : Option ℕ → Option ℕ → Option ℕ
unless_on last none = none
unless_on last (some date) = if not_on last date then some date else none

unfoldable pub should_run_retention : Calendar → Instant → Option ℕ → Bool
should_run_retention cal now last_date =
    cal.hour now == retention_hour
    && ltb (cal.minute now) retention_window_minutes
    && not_on last_date (cal.date now)

-- the first of two optional instants that is after `now`
abbrev keep_after : Instant → Option Instant → Option Instant
keep_after now none = none
keep_after now (some t) = if ltb now t then some t else none

abbrev first_after : Instant → Option Instant → Option Instant → Option Instant
first_after now o p = or_option (keep_after now o) (keep_after now p)

-- the window that a start opens
abbrev opens : Instant → ℕ → Option Instant → Bool
opens now grace none = false
opens now grace (some start) = leb start now && ltb now (add_minutes start grace)

-- Dates are numbered by their days. `local_at` is the instant of a date and a second of its day:
-- the earlier one where the clock shows it twice, `none` where it never does.
module _ (cal : Calendar) (local_at : ℕ → ℕ → Option Instant) where
  unfoldable pub next_retention_at : Instant → Option Instant
  next_retention_at now =
      let today = cal.date now in
      first_after now (local_at today (retention_hour * 3600))
        (local_at (today + 1) (retention_hour * 3600))

  -- the loop over today and yesterday
  unfoldable pub summary_window_date : Instant → ℕ → ℕ → Option ℕ
  summary_window_date now time grace_minutes =
      let today = cal.date now in
      if opens now grace_minutes (local_at today time)
      then some today
      else (if ltb 0 today && opens now grace_minutes (local_at (today - 1) time)
          then some (today - 1)
          else none)

  unfoldable pub should_run_daily_summary : Instant → Option ℕ → DailySummaryConfig → Option ℕ
  unfolding summary_window_date effective_grace_minutes
  should_run_daily_summary now last_summary_date cfg =
      if cfg.enabled
      then unless_on last_summary_date
          (summary_window_date now cfg.time (effective_grace_minutes cfg))
      else none

  unfoldable pub next_summary_at : Instant → DailySummaryConfig → Option Instant
  next_summary_at now cfg =
      let today = cal.date now in
      if cfg.enabled
      then first_after now (local_at today cfg.time) (local_at (today + 1) cfg.time)
      else none

-- one candidate of the `filter` and the `min`
abbrev nearer : Instant → Instant → Option Instant → Instant → Instant
nearer now cap none best = best
nearer now cap (some t) best = if ltb now t && ltb t cap then min t best else best

unfoldable pub compute_sleep_target :
    Instant → Option Instant → Option Instant → Option Instant → Instant
compute_sleep_target now next_event next_summary next_retention =
    let safety_cap = add_minutes now max_sleep_minutes in
    nearer now safety_cap next_event
      (nearer now safety_cap next_summary (nearer now safety_cap next_retention safety_cap))
