-- ===== src/Alerts/Sweep.antt =====
-- The sweep of crates/dotagent/src/commands/daemon.rs that alerts on what no run reports:
-- `alert_verdict`, `anyone_listening`, `notify_channel` and `sweep_health_notifications`.
pub mod Announces
use dotagent.Common.{
  ℕ, Bool, true, false, ◌&&◌, ◌||◌, Option, none, some, List, [], ◌∷◌, ◌++◌, any, if◌then◌else◌,
  is_some,
}
use dotagent.Common.Text.{Text, codes, text_eq}
use dotagent.Time.{Instant, Calendar, timestamp}
use dotagent.Manifest.{
  Schedule, Heartbeat, WindowState, NotifierEntry, AgentManifest, schedule_id, schedule_args,
}
use dotagent.Power.{PowerGate, defers}
use dotagent.Scheduler.Policy.{resolve}
use dotagent.Scheduler.Windows.{expected_at, last_success_of, window_key}
use dotagent.Scheduler.Health.{HealthState, ok, degraded, failing, stale, health_state}
use dotagent.Alerts.Dedup.{NotifyDedup, alert_key, should_notify, record_alert, clear_pair}
use dotagent.Alerts.Message.{alert_message}

pub data Event : Type 0 where
  stale_event given_up_event : Event

abbrev pub event_name : Event → Text
event_name stale_event = codes "stale"
event_name given_up_event = codes "given_up"

pub data AlertVerdict : Type 0 where
  healthy quiet : AlertVerdict
  alert : Event → AlertVerdict

abbrev given_up_window : Option WindowState → Bool
given_up_window none = false
given_up_window (some w) = w.given_up

unfoldable pub alert_verdict :
    HealthState → Option Instant → Option Instant → Option WindowState → AlertVerdict
alert_verdict stale expected last_success window =
    if is_some expected || is_some last_success then alert stale_event else quiet
alert_verdict failing expected last_success window =
    if given_up_window window then alert given_up_event else quiet
alert_verdict ok expected last_success window = if is_some expected then healthy else quiet
alert_verdict degraded expected last_success window = if is_some expected then healthy else quiet

-- a list of events that is empty stands for all
abbrev lists : List Text → Text → Bool
lists [] event = true
lists (e ∷ es) event = any (λ x. text_eq x event) (e ∷ es)

-- `NotifierEntry::matches_event`: the entry's own events, else the plugin's
unfoldable pub matches_event : NotifierEntry → Text → Bool
matches_event n event = elim n.events [
  | [] ↦ lists n.plugin_events event
  | e ∷ es ↦ lists (e ∷ es) event
]

unfoldable pub anyone_listening : AgentManifest → Text → Bool
unfolding matches_event
anyone_listening m event =
    any (λ n. matches_event n event) m.notifiers || any (λ h. lists h event) m.on_failure

unfoldable pub notify_channel : AgentManifest → Event → Option Event
notify_channel m event = if anyone_listening m (event_name event) then some event else (elim event [
  | stale_event ↦ if anyone_listening m (codes "given_up") then some given_up_event else none
  | given_up_event ↦ none
])

-- one call of `fire_on_failure_event`: agent, schedule, event and message
pub record Fired : Type 0 where
  pub agent : Text
  pub schedule : Text
  pub event : Event
  pub message : Text

-- the variables of the loop, with what was sent
pub record SweepState : Type 0 where
  pub table : NotifyDedup
  pub changed : Bool
  pub fired : List Fired

-- What the sweep reads: the heartbeat and window files by agent and slug, the newest window that
-- was dispatched (`status::last_dispatched_window`), and the slug of the arguments
-- (`slug_from_args`).
pub record Files : Type 0 where
  pub heartbeat : Text → Text → Option Heartbeat
  pub window : Text → Text → ℕ → Option WindowState
  pub last_dispatched : Text → Text → Instant → Option Instant
  pub slug_from_args : List Text → Text

-- what follows once the ladder has been asked
unfoldable pub speak :
    Text
    → Schedule
    → Event
    → Event
    → Option Instant
    → Option WindowState
    → Instant
    → SweepState
    → SweepState
unfolding schedule_id
speak name sched event channel last_success window now s =
    let key = alert_key name (schedule_id sched) (event_name event) in
    let (table', episode) = record_alert s.table key (timestamp now) in
    let message =
      alert_message (event_name event) name (schedule_id sched) last_success window episode now in
    if should_notify s.table key (timestamp now)
    then record {
      table = table';
      changed = true;
      fired =
          s.fired
          ++ record {
            agent = name;
            schedule = schedule_id sched;
            event = channel;
            message = message;
          }
            ∷ [];
    }
    else s

-- nobody configured to hear it: say nothing, and remember nothing
unfoldable pub deliver :
    Option Event
    → Text
    → Schedule
    → Event
    → Option Instant
    → Option WindowState
    → Instant
    → SweepState
    → SweepState
deliver none name sched event last_success window now s = s
deliver (some channel) name sched event last_success window now s =
    speak name sched event channel last_success window now s

-- the `match` on the verdict and what stands under it
unfoldable pub act :
    AlertVerdict
    → AgentManifest
    → Schedule
    → Option Instant
    → Option WindowState
    → Instant
    → SweepState
    → SweepState
act healthy m sched last_success window now s =
    let (table', forgot) = clear_pair s.table m.name (schedule_id sched) in
    record s { table = table'; changed = s.changed || forgot }
act quiet m sched last_success window now s = s
act (alert event) m sched last_success window now s =
    deliver (notify_channel m event) m.name sched event last_success window now s

module _ (cal : Calendar) (files : Files) (power : PowerGate) (now : Instant) where
  -- the window file that describes the health of a pair
  unfoldable pub window_of : AgentManifest → Schedule → Option WindowState
  window_of m sched =
      let slug = files.slug_from_args (schedule_args sched) in
      let hb = files.heartbeat m.name slug in
      let dispatched = files.last_dispatched m.name slug now in
      elim (window_key cal sched hb dispatched now) [
        | none ↦ none
        | some key ↦ files.window m.name slug (cal.label key)
      ]

  -- the body of the inner loop
  unfoldable pub sweep_pair : AgentManifest → Schedule → SweepState → SweepState
  sweep_pair m sched s =
      let policy = resolve m.defaults sched in
      let hb = files.heartbeat m.name (files.slug_from_args (schedule_args sched)) in
      let last_success = last_success_of hb in
      let expected = expected_at cal sched now last_success in
      let window = window_of m sched in
      let health = (health_state cal sched policy hb window now).0 in
      if defers power sched
      then s
      else act (alert_verdict health expected last_success window) m sched last_success window now s

  sweep_schedules : AgentManifest → List Schedule → SweepState → SweepState
  sweep_schedules m [] s = s
  sweep_schedules m (sched ∷ rest) s = sweep_schedules m rest (sweep_pair m sched s)

  -- the outer loop; the table is saved at its end if `changed`
  unfoldable pub sweep_health_notifications : List AgentManifest → SweepState → SweepState
  unfolding sweep_schedules
  sweep_health_notifications [] s = s
  sweep_health_notifications (m ∷ agents) s =
      sweep_health_notifications agents (if m.monitor then sweep_schedules m m.schedules s else s)
