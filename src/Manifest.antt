-- ===== src/Manifest.antt =====
-- crates/dotagent-core/src/manifest.rs (schedules and their overrides), heartbeat.rs, state.rs and
-- power.rs: the data that the scheduler and the daemon decide on.
use dotagent.Common.{ℕ, Bool, Option, List}
use dotagent.Common.Int.{ℤ}
use dotagent.Common.Text.{Text}

pub data PowerPolicy : Type 0 where
  run defer : PowerPolicy

pub record ScheduleOverrides : Type 0 where
  pub max_retries : Option ℕ
  pub retry_backoff_minutes : Option (List ℕ)
  pub stale_after_minutes : Option ℕ
  pub on_battery : Option PowerPolicy

-- the fields, in the source's order: id, (weekdays, hours, minute | interval_minutes | expression),
-- args, overrides
pub data Schedule : Type 0 where
  cron : Text → List ℕ → List ℕ → ℕ → List Text → ScheduleOverrides → Schedule
  interval : Text → ℕ → List Text → ScheduleOverrides → Schedule
  expression : Text → Text → List Text → ScheduleOverrides → Schedule

unfoldable pub schedule_id : Schedule → Text
schedule_id (cron i _ _ _ _ _) = i
schedule_id (interval i _ _ _) = i
schedule_id (expression i _ _ _) = i

unfoldable pub overrides : Schedule → ScheduleOverrides
overrides (cron _ _ _ _ _ o) = o
overrides (interval _ _ _ o) = o
overrides (expression _ _ _ o) = o

-- `AgentManifest.defaults`
pub record ScheduleDefaults : Type 0 where
  pub max_retries : Option ℕ
  pub retry_backoff_minutes : Option (List ℕ)
  pub stale_after_minutes : Option ℕ

-- `Heartbeat`: the fields that decide (the others are the record of the run)
pub record Heartbeat : Type 0 where
  pub started_at : ℕ
  pub finished_at : Option ℕ
  pub exit_code : Option ℤ
  pub last_success_at : Option ℕ

pub record WindowState : Type 0 where
  pub agent : Text
  pub schedule_id : Text
  pub expected_at : ℕ
  pub attempts : ℕ  -- u32
  pub last_attempt_at : Option ℕ
  pub last_attempt_exit_code : Option ℤ
  pub last_attempt_stderr : Option Text
  pub given_up : Bool
  pub given_up_at : Option ℕ

-- `NotifierEntry`: its own events, and those of a plugin's configuration (none for another driver)
pub record NotifierEntry : Type 0 where
  pub events : List Text
  pub plugin_events : List Text

-- `AgentManifest`: what the daemon's loop reads; of an `[[on_failure]]` hook, its events
pub record AgentManifest : Type 0 where
  pub name : Text
  pub monitor : Bool
  pub defaults : ScheduleDefaults
  pub schedules : List Schedule
  pub notifiers : List NotifierEntry
  pub on_failure : List (List Text)

unfoldable pub schedule_args : Schedule → List Text
schedule_args (cron _ _ _ _ a _) = a
schedule_args (interval _ _ a _) = a
schedule_args (expression _ _ a _) = a
