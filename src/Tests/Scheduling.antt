-- ===== src/Tests/Scheduling.antt =====
-- Windows of concrete schedules.
use dotagent.Common.{ℕ, ◌+◌, ◌*◌, ◌≤◌, ◌<◌, ◌≡◌, refl, ◌↔◌, none, some, [], ◌∷◌, arith}
use dotagent.Common.Text.{codes}
use dotagent.Time.{Instant, utc, utc-laws, add_minutes, minute_ns, hour_ns, timestamp}
use dotagent.Manifest.{defer}
use dotagent.Power.{PowerConfig}
use dotagent.Scheduler.Windows.{expected_at, last_success_of}
use dotagent.Scheduler.Windows.Interval.{expected_at-interval}
use dotagent.Scheduler.Windows.CronDay.{expected_at-cron-latest}
use dotagent.Scheduler.Upcoming.{AgentSchedulePair, next_occurrence}
use dotagent.Scheduler.Upcoming.Ahead.{next_occurrence-ahead}
use dotagent.Scheduler.Health.{stale, health_state}
use dotagent.Scheduler.Health.Verdicts.{health_state-stale_iff}
use dotagent.Tests.Data.{hourly, working_days, monday, noon, standard, beat, no_overrides}

health_state-stale_iff_example :
    ((health_state utc hourly standard (some (beat (timestamp noon))) none (noon + 5 * hour_ns)).0
      ≡ stale)
    ↔ (add_minutes (add_minutes noon 60) 121 ≤ noon + 5 * hour_ns)
unfolding last_success_of
health_state-stale_iff_example =
    health_state-stale_iff utc (codes "hourly") 60 [] no_overrides standard
      (some (beat (timestamp noon))) none (noon + 5 * hour_ns) noon (omega arith) refl (omega arith)

expected_at-interval_example :
    (k : ℕ) × (expected_at utc hourly (noon + 5 * hour_ns) (some noon)
      ≡ some (add_minutes noon (k * 60)))
    × (add_minutes noon (k * 60) ≤ noon + 5 * hour_ns)
    × (noon + 5 * hour_ns < add_minutes noon (k * 60 + 60))
expected_at-interval_example =
    expected_at-interval utc (codes "hourly") [] no_overrides 60 (noon + 5 * hour_ns) noon
      (omega arith) (omega arith)

abbrev half_past_nine : Instant
half_past_nine = monday + 9 * hour_ns + 30 * minute_ns

expected_at-cron-latest_example : half_past_nine ≤ half_past_nine
unfolding expected_at
expected_at-cron-latest_example =
    expected_at-cron-latest utc utc-laws (codes "working-days") (1 ∷ 2 ∷ 3 ∷ 4 ∷ 5 ∷ [])
      (9 ∷ 18 ∷ []) 30 [] no_overrides noon none half_past_nine refl 9 half_past_nine refl refl
      (omega arith)

next_occurrence-ahead_example : noon < monday + 18 * hour_ns + 30 * minute_ns
unfolding next_occurrence
next_occurrence-ahead_example =
    next_occurrence-ahead utc working_days noon none (monday + 18 * hour_ns + 30 * minute_ns) refl

abbrev pair : AgentSchedulePair
pair = record { agent_name = codes "briefing"; schedule = hourly; last_success = some noon }

abbrev deferring : PowerConfig
deferring = record { on_battery = defer; min_battery_percent = 20 }
