-- ===== src/Tests/Alerting.antt =====
-- Alerts on concrete episodes.
use dotagent.Common.{ℕ, ◌≡◌, refl, false, none, some, List, [], ◌∷◌}
use dotagent.Common.Text.{codes}
use dotagent.Common.Table
use dotagent.Time.{timestamp}
use dotagent.Alerts.Dedup.{
  NotifyDedup, alert_key, claim_alert, record_alert, may_speak, record_episode,
}
use dotagent.Alerts.Dedup.Ladder.{announce}
use dotagent.Alerts.Sweep.{Files, SweepState}
use dotagent.Tests.Data.{noon, beat}

-- a condition that holds at a tick every half hour
abbrev ticks : List ℕ
ticks = 0 ∷ 1800 ∷ 3600 ∷ 5400 ∷ 7200 ∷ 25200 ∷ []

-- three notices, at 0 h, 1 h and 7 h
three_notices : announce [] (codes "briefing") (codes "hourly") (codes "stale") 0 ticks ≡ 3
unfolding announce claim_alert may_speak alert_key Table.get Table.insert record_episode
three_notices = refl

-- one episode of each of two pairs
abbrev two_episodes : NotifyDedup
two_episodes =
    (record_alert
      (record_alert [] (alert_key (codes "briefing") (codes "hourly") (codes "stale")) 5).0
      (alert_key (codes "briefing") (codes "daily") (codes "stale")) 7).0

-- last succeeded at noon, with no window file
abbrev files : Files
files = record {
  heartbeat = λ name slug. some (beat (timestamp noon));
  window = λ name slug label. none;
  last_dispatched = λ name slug now. none;
  slug_from_args = λ args. codes "default";
}

abbrev nothing_said : SweepState
nothing_said = record { table = []; changed = false; fired = [] }
