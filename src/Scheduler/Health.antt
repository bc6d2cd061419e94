-- ===== src/Scheduler/Health.antt =====
-- `health_state`: the verdict that `dotagent status`, the daily summary and the alerts read, with
-- the reason that is shown for it.
pub mod Verdicts
use dotagent.Common.{
  ℕ, ◌+◌, ◌-◌, ◌/◌, ◌%◌, Bool, true, false, Option, none, some, List, [], ◌∷◌, ◌++◌, ltb, leb, ◌==◌,
  if◌then◌else◌, unwrap_or, is_some_and,
}
use dotagent.Common.Int.{ℤ, pos, negsuc, max_zero}
use dotagent.Common.Text.{Text, codes, decimal}
use dotagent.Time.{Instant, Calendar, num_minutes}
use dotagent.Manifest.{Schedule, Heartbeat, WindowState}
use dotagent.Scheduler.Policy.{ResolvedPolicy, is_stale}
use dotagent.Scheduler.Windows.{expected_at, last_success_of, first_missed_window}

pub data HealthState : Type 0 where
  ok degraded failing stale : HealthState

-- `45min`, `3h 20m`, `55d 4h`
unfoldable pub human_age : ℤ → Text
human_age minutes =
    let m = max_zero minutes in
    let d = m / 1440 in
    let h = m % 1440 / 60 in
    let rem = m % 60 in
    if ltb 0 d
    then decimal d ++ codes "d " ++ decimal h ++ codes "h"
    else (if ltb 0 h
        then decimal h ++ codes "h " ++ decimal rem ++ codes "m"
        else decimal rem ++ codes "min")

unfoldable pub attempts_label : ℕ → Text
attempts_label n = if n == 1 then codes "1 attempt" else decimal n ++ codes " attempts"

abbrev is_zero : Option ℤ → Bool
is_zero (some (pos n)) = n == 0
is_zero _ = false

-- `saturating_sub` is the subtraction of ℕ
unfoldable pub failed_attempts : WindowState → ℕ
failed_attempts ws = if is_zero ws.last_attempt_exit_code then ws.attempts - 1 else ws.attempts

abbrev window_failures : Option WindowState → ℕ
window_failures none = 0
window_failures (some ws) = failed_attempts ws

-- the window succeeded: `Degraded` if an attempt failed before
after_success : Option WindowState → HealthState × Text
unfolding failed_attempts attempts_label
after_success window_state =
    let failed = window_failures window_state in
    if ltb 0 failed
    then (degraded, codes "recovered after " ++ attempts_label failed)
    else (ok, codes "ok")

-- the window is due or in progress, and not yet stale
in_window : Instant → Option WindowState → Instant → HealthState × Text
unfolding human_age attempts_label
in_window exp (some ws) now =
    if ws.given_up
    then (failing, codes "gave up after " ++ attempts_label ws.attempts)
    else (failing, attempts_label ws.attempts ++ codes ", will retry")
in_window exp none now =
    (failing, codes "window due " ++ human_age (num_minutes now exp) ++ codes " ago, no attempt")

-- the window was missed: `Stale` once the first one that was missed is too old
after_miss :
    Schedule
    → ResolvedPolicy
    → Option Instant
    → Instant
    → Option WindowState
    → Instant
    → HealthState × Text
unfolding is_stale in_window first_missed_window
after_miss schedule policy last_success exp window_state now =
    let stale_ref = unwrap_or (first_missed_window schedule last_success) exp in
    if is_stale stale_ref policy.stale_after_minutes now
    then (
      stale,
      codes "window missed " ++ human_age (num_minutes now stale_ref) ++ codes " ago (stale)",
    )
    else in_window exp window_state now

abbrev judge :
    Schedule
    → ResolvedPolicy
    → Option Instant
    → Option Instant
    → Option WindowState
    → Instant
    → HealthState × Text
judge schedule policy none none window_state now = (stale, codes "never ran")
judge schedule policy none (some ls) window_state now =
    (ok, codes "no window today · last success ok")
judge schedule policy (some exp) last_success window_state now =
    if is_some_and last_success (λ ls. leb exp ls)
    then after_success window_state
    else after_miss schedule policy last_success exp window_state now

unfoldable pub health_state :
    Calendar
    → Schedule
    → ResolvedPolicy
    → Option Heartbeat
    → Option WindowState
    → Instant
    → HealthState × Text
unfolding after_success after_miss
health_state cal schedule policy heartbeat window_state now =
    let last_success = last_success_of heartbeat in
    judge schedule policy (expected_at cal schedule now last_success) last_success window_state now
