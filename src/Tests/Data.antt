-- ===== src/Tests/Data.antt =====
-- The agents, schedules and files that the tests run on.
use dotagent.Common.{ℕ, ◌+◌, ◌*◌, true, none, some, [], ◌∷◌}
use dotagent.Common.Text.{codes}
use dotagent.Common.Int.{pos}
use dotagent.Time.{Instant, day_ns, hour_ns}
use dotagent.Manifest.{
  run, Schedule, ScheduleOverrides, ScheduleDefaults, cron, interval, Heartbeat, NotifierEntry,
  AgentManifest,
}
use dotagent.Power.{PowerGate, ac}
use dotagent.Scheduler.Policy.{ResolvedPolicy, default_backoff}
use dotagent.Dispatch.Attempt.{RunResult, World, Env}

abbrev pub no_overrides : ScheduleOverrides
no_overrides = record {
  max_retries = none;
  retry_backoff_minutes = none;
  stale_after_minutes = none;
  on_battery = none;
}

abbrev pub no_defaults : ScheduleDefaults
no_defaults = record {
  max_retries = none;
  retry_backoff_minutes = none;
  stale_after_minutes = none;
}

abbrev pub hourly : Schedule
hourly = interval (codes "hourly") 60 [] no_overrides

-- at 9:30 and 18:30 on working days
abbrev pub working_days : Schedule
working_days = cron (codes "working-days") (1 ∷ 2 ∷ 3 ∷ 4 ∷ 5 ∷ []) (9 ∷ 18 ∷ []) 30 [] no_overrides

-- Monday 2026-01-05, 0:00 UTC
abbrev pub monday : Instant
monday = 20458 * day_ns

abbrev pub noon : Instant
noon = monday + 12 * hour_ns

abbrev pub standard : ResolvedPolicy
standard = record {
  max_retries = 3;
  retry_backoff_minutes = default_backoff;
  stale_after_minutes = 120;
}

-- one notifier that listens for everything
abbrev pub listener : NotifierEntry
listener = record { events = []; plugin_events = [] }

abbrev pub briefing : AgentManifest
briefing = record {
  name = codes "briefing";
  monitor = true;
  defaults = no_defaults;
  schedules = hourly ∷ working_days ∷ [];
  notifiers = listener ∷ [];
  on_failure = [];
}

-- last succeeded at the given second
abbrev pub beat : ℕ → Heartbeat
beat s = record {
  started_at = s;
  finished_at = some s;
  exit_code = some (pos 0);
  last_success_at = some s;
}

abbrev pub plugged_in : PowerGate
plugged_in = record { source = ac; on_battery = run; min_battery_percent = 0 }

-- no window file, no episode, nothing said
abbrev pub empty_world : World
empty_world = record {
  windows = λ name slug label. none;
  alerts = [];
  audit = [];
  notices = [];
  flushed = [];
}

-- the writes succeed
abbrev pub surroundings : RunResult → Instant → Env
surroundings result clock = record {
  result = result;
  clock = clock;
  notify_clock = clock;
  window_saved = true;
  alerts_saved = true;
  memos = [];
  extracted = none;
}
