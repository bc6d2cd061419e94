-- ===== src/Dispatch.antt =====
-- `dispatch_one` and `give_up` of crates/dotagent/src/commands/daemon.rs: what one tick does about
-- one schedule.
pub mod Attempt
pub mod Gates
use dotagent.Common.{
  ℕ, ◌+◌, Bool, true, false, ◌&&◌, Option, none, some, List, [], ◌∷◌, ltb, leb, if◌then◌else◌,
  is_some_and, unwrap_or,
}
use dotagent.Common.Text.{Text}
use dotagent.Time.{Instant, Calendar}
use dotagent.Manifest.{Schedule, Heartbeat, WindowState, AgentManifest, schedule_id, schedule_args}
use dotagent.Power.{PowerGate, defers}
use dotagent.Scheduler.Policy.{ResolvedPolicy, resolve, is_stale}
use dotagent.Scheduler.Windows.{expected_at, last_success_of}
use dotagent.Dispatch.Attempt.{World, Env, try_window}

module _ (cal : Calendar) (slug_from_args : List Text → Text) where
  -- what is left once the window is known to be due
  due_window : AgentManifest → Schedule → Instant → Env → PowerGate → Instant → World → Bool × World
  due_window agent sched expected env power now w =
      let policy = resolve agent.defaults sched in
      if is_stale expected policy.stale_after_minutes now
      then (false, w)
      else (if defers power sched
          then (false, w)
          else try_window cal agent sched (slug_from_args (schedule_args sched)) policy expected env
              now w)

  -- the gates on the window that is expected
  consider :
      Option Instant
      → Option Instant
      → AgentManifest
      → Schedule
      → Env
      → PowerGate
      → Instant
      → World
      → Bool × World
  unfolding due_window
  consider none last_success agent sched env power now w = (false, w)
  consider (some expected) last_success agent sched env power now w =
      if ltb now expected
      then (false, w)
      else (if is_some_and last_success (λ ls. leb expected ls)
          then (false, w)
          else due_window agent sched expected env power now w)

  -- whether a run was dispatched, and what the tick left behind
  unfoldable pub dispatch_one :
      AgentManifest → Schedule → Env → PowerGate → Instant → Option Heartbeat → World → Bool × World
  unfolding consider
  dispatch_one agent sched env power now heartbeat w =
      let last_success = last_success_of heartbeat in
      consider (expected_at cal sched now last_success) last_success agent sched env power now w
