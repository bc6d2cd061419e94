-- ===== src/Tests/Waking.antt =====
-- Wake-ups on concrete days.
use dotagent.Common.{ℕ, ◌+◌, ◌*◌, ◌≡◌, refl, true, Option, none, some, List, [], ◌∷◌}
use dotagent.Time.{Instant, utc, day_ns, second, hour_ns, minute_ns}
use dotagent.Wakeups.{
  DailySummaryConfig, summary_window_date, should_run_daily_summary, effective_grace_minutes,
}
use dotagent.Wakeups.Summary.{deliveries}
use dotagent.Tests.Data.{monday, noon}

-- a clock that never changes
abbrev local_at : ℕ → ℕ → Option Instant
local_at date time = some (date * day_ns + time * second)

-- at 22:45, for half an hour
abbrev evening : DailySummaryConfig
evening = record { enabled = true; time = 81900; grace_minutes = 30 }

abbrev quarter_to_eleven : Instant
quarter_to_eleven = monday + 22 * hour_ns + 45 * minute_ns

abbrev ticks : List Instant
ticks =
    noon ∷ quarter_to_eleven ∷ (quarter_to_eleven + minute_ns) ∷ (quarter_to_eleven + day_ns) ∷ []

-- two days, one summary each
two_summaries : deliveries utc local_at evening none ticks ≡ 20458 ∷ 20459 ∷ []
unfolding deliveries should_run_daily_summary summary_window_date effective_grace_minutes
two_summaries = refl
