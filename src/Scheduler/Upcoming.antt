-- ===== src/Scheduler/Upcoming.antt =====
-- `next_occurrence`, `cron_next_occurrence` and `compute_next_event`: how long the daemon may sleep.
pub mod Ahead
use dotagent.Common.{
  ℕ, zero, suc, ◌+◌, ◌*◌, Bool, true, false, ◌&&◌, Option, none, some, List, [], ◌∷◌, ltb, leb,
  if◌then◌else◌, unwrap_or,
}
use dotagent.Common.Int.{max_zero, div_euclid}
use dotagent.Common.Text.{Text}
use dotagent.Time.{Instant, Calendar, num_minutes, add_minutes, day_ns}
use dotagent.Manifest.{Schedule, cron, interval, expression}
use dotagent.Scheduler.Windows.{positive_interval, contains}

-- `sort_unstable`: on numbers every sort gives the same list
insert_sorted : ℕ → List ℕ → List ℕ
insert_sorted h [] = h ∷ []
insert_sorted h (x ∷ xs) = let rest = insert_sorted h xs in if leb h x then h ∷ x ∷ xs else x ∷ rest

sort : List ℕ → List ℕ
unfolding insert_sorted
sort [] = []
sort (h ∷ hs) = insert_sorted h (sort hs)

-- how a search ends: the `return Some(candidate)`, the `?` on a time that is not on that day's
-- clock, or the end of the loop
pub data Search : Type 0 where
  found : Instant → Search
  gave_up : Search
  exhausted : Search

module _ (cal : Calendar) where
  -- the loop over the hours of one day
  search_hours : List ℕ → ℕ → Instant → Instant → Search
  search_hours [] minute day now = exhausted
  search_hours (h ∷ hours) minute day now =
      let rest = search_hours hours minute day now in
      elim (cal.at_time day h minute) [
        | none ↦ gave_up
        | some candidate ↦ if ltb now candidate then found candidate else rest
      ]

  -- the loop over the days, from `day_offset` on, for `left` more days
  search_days : ℕ → ℕ → List ℕ → List ℕ → ℕ → Instant → Option Instant
  unfolding search_hours
  search_days zero day_offset weekdays hours minute now = none
  search_days (suc left) day_offset weekdays hours minute now =
      let day = now + day_offset * day_ns in
      let rest = search_days left (suc day_offset) weekdays hours minute now in
      if contains weekdays (cal.weekday day)
      then (elim (search_hours hours minute day now) [
        | found t ↦ some t
        | gave_up ↦ none
        | exhausted ↦ rest
      ])
      else rest

  unfoldable pub cron_next_occurrence : List ℕ → List ℕ → ℕ → Instant → Option Instant
  unfolding search_days sort
  cron_next_occurrence [] hours minute now = none
  cron_next_occurrence (d ∷ weekdays) [] minute now = none
  cron_next_occurrence (d ∷ weekdays) (h ∷ hours) minute now =
      search_days 8 0 (d ∷ weekdays) (sort (h ∷ hours)) minute now

  unfoldable pub interval_next_occurrence : ℕ → Instant → Option Instant → Option Instant
  unfolding positive_interval num_minutes
  interval_next_occurrence interval_minutes now last_success =
      elim (positive_interval interval_minutes) [
        | none ↦ none
        | some iv ↦
            let anchor = unwrap_or last_success now in
            let next = add_minutes anchor iv in
            if ltb now next
            then some next
            else (let n = max_zero (div_euclid (num_minutes now anchor) iv) + 1 in
                some (add_minutes anchor (n * iv)))
      ]

  unfoldable pub next_occurrence : Schedule → Instant → Option Instant → Option Instant
  unfolding cron_next_occurrence interval_next_occurrence
  next_occurrence (cron _ weekdays hours minute _ _) now last_success =
      cron_next_occurrence weekdays hours minute now
  next_occurrence (interval _ interval_minutes _ _) now last_success =
      interval_next_occurrence interval_minutes now last_success
  next_occurrence (expression _ _ _ _) now last_success = none

pub record AgentSchedulePair : Type 0 where
  pub agent_name : Text
  pub schedule : Schedule
  pub last_success : Option Instant

-- the earlier of two optional instants, none counting as later than all
unfoldable pub earlier : Option Instant → Option Instant → Option Instant
earlier none o = o
earlier (some t) none = some t
earlier (some t) (some u) = if leb t u then some t else some u

-- `filter_map(next_occurrence).min()`
unfoldable pub compute_next_event : Calendar → List AgentSchedulePair → Instant → Option Instant
unfolding next_occurrence earlier
compute_next_event cal [] now = none
compute_next_event cal (p ∷ pairs) now =
    earlier (next_occurrence cal p.schedule now p.last_success) (compute_next_event cal pairs now)
