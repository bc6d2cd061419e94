-- ===== src/Alerts/Dedup.antt =====
-- crates/dotagent-state/src/notify_dedup.rs: the ladder between re-notifications, and the table of
-- the episodes. A time is a number of seconds since the epoch.
pub mod Ladder
pub mod Pairs
use dotagent.Common.{
  ℕ, ◌+◌, ◌-◌, Bool, true, Option, none, some, List, [], ◌∷◌, ◌++◌, min, max, get_or, ltb, leb,
  if◌then◌else◌, unwrap_or, not, u32,
}
use dotagent.Common.Text.{Text, codes, starts_with}
use dotagent.Common.Table
use dotagent.Common.Table.{Table}

abbrev pub backoff_seconds : List ℕ
backoff_seconds = 3600 ∷ 21600 ∷ 86400 ∷ []

pub record AlertEpisode : Type 0 where
  pub first_notified_at : ℕ
  pub last_notified_at : ℕ
  pub count : ℕ  -- u32

-- the free function `should_notify`
unfoldable pub may_speak : Option AlertEpisode → ℕ → Bool
may_speak none now = true
may_speak (some e) now =
    if ltb now e.last_notified_at
    then true
    else (let step = min (max e.count 1 - 1) 2 in
        leb (get_or backoff_seconds step 0) (now - e.last_notified_at))

-- `NotifyDedup`, by its one field
abbrev pub NotifyDedup : Type 0
NotifyDedup = Table AlertEpisode

abbrev slash : Text
slash = codes "/"

unfoldable pub alert_key : Text → Text → Text → Text
alert_key agent schedule event = agent ++ (slash ++ (schedule ++ (slash ++ event)))

unfoldable pub should_notify : NotifyDedup → Text → ℕ → Bool
should_notify table key now = may_speak (Table.get table key) now

-- the entry of `record` when there is none yet
abbrev new_episode : ℕ → AlertEpisode
new_episode now = record { first_notified_at = now; last_notified_at = now; count = 0 }

unfoldable pub record_episode : Option AlertEpisode → ℕ → AlertEpisode
record_episode o now =
    let entry = unwrap_or o (new_episode now) in
    record entry { last_notified_at = now; count = u32 (entry.count + 1) }

-- `NotifyDedup::record`: the table, and the episode as it now stands
unfoldable pub record_alert : NotifyDedup → Text → ℕ → NotifyDedup × AlertEpisode
record_alert table key now =
    let entry = record_episode (Table.get table key) now in (Table.insert table key entry, entry)

abbrev pair_prefix : Text → Text → Text
pair_prefix agent schedule = agent ++ (slash ++ (schedule ++ slash))

-- `clear_pair`: the table, and whether something was forgotten
unfoldable pub clear_pair : NotifyDedup → Text → Text → NotifyDedup × Bool
clear_pair table agent schedule =
    let prefix = pair_prefix agent schedule in
    (
      Table.retain_keys (λ k. not (starts_with prefix k)) table,
      Table.any_key (λ k. starts_with prefix k) table,
    )

-- `claim_alert` of the daemon: load, ask the ladder, record, save. `saved` says whether the write
-- succeeds; a failed one is logged and the alert still goes out.
unfoldable pub claim_alert :
    NotifyDedup → Bool → Text → Text → Text → ℕ → NotifyDedup × Option AlertEpisode
unfolding should_notify record_alert
claim_alert table saved agent schedule event now =
    let key = alert_key agent schedule event in
    let (table', episode) = record_alert table key now in
    if should_notify table key now
    then (if saved then table' else table, some episode)
    else (table, none)
