-- ===== src/Dispatch/Attempt/Budget.antt =====
-- A window is dispatched at most `max_retries` times, whatever its runs do.
use dotagent.Common.{
  ℕ, ◌+◌, ◌-◌, ◌≤◌, ◌≡◌, refl, ◌⊎◌, Bool, true, false, Option, none, some, List, [], ◌∷◌,
  if◌then◌else◌, u32, unwrap_or, ==_iff,
}
use dotagent.Common.Text.{Text}
use dotagent.Common.Table.{refl_text}
use dotagent.Time.{Instant, Calendar}
use dotagent.Manifest.{Schedule, WindowState, AgentManifest, schedule_id}
use dotagent.Scheduler.Policy.{ResolvedPolicy}
use dotagent.Dispatch.Attempt.{
  World, Env, write_window, mark_given_up, give_up, fresh_window, try_window,
}

-- what is left of a window's budget
abbrev pub left : ℕ → Option WindowState → ℕ
left max none = max
left max (some ws) = if ws.given_up then 0 else max - ws.attempts

-- a stored window is its agent's
abbrev pub IsOwn : Text → Option WindowState → Type 0
IsOwn name none = Unit
IsOwn name (some ws) = ws.agent ≡ name

abbrev count_one : Bool → ℕ
count_one true = 1
count_one false = 0

module _ (name slug : Text) (label : ℕ) where
  pub write_self :
      (b : Bool) (agent : Text) (ws : WindowState) (w : World)
      → b ≡ true
      → agent ≡ name
      → (write_window b agent slug label ws w).windows name slug label ≡ some ws
  write_self false agent ws w h e = cc
  write_self true agent ws w h e = rw (e, refl_text, refl_text, (==_iff label label).1 refl)

  -- the file of the window
  abbrev file : World → Option WindowState
  file w = w.windows name slug label

  pub give_up_self :
      (sched : Text) (window : WindowState) (env : Env) (w : World)
      → env.window_saved ≡ true
      → window.agent ≡ name
      → file (give_up name sched slug label window env w) ≡ some (mark_given_up window env.clock)
  unfolding give_up
  give_up_self sched window env w saved own = write_self env.window_saved window.agent _ _ saved own

  -- the window as written, given up or not
  abbrev Written : WindowState → Env → Option WindowState → Type 0
  Written window env o = (o ≡ some window) ⊎ (o ≡ some (mark_given_up window env.clock))

  -- one more attempt than the window had, by the same agent
  abbrev OneMore : WindowState → Option WindowState → Type 0
  OneMore window o =
      (ws : WindowState) × (o ≡ some ws)
      × (ws.attempts ≡ u32 (window.attempts + 1))
      × (ws.agent ≡ name)

  -- an attempt that was dispatched is on file; one that was not has changed nothing
  abbrev Attempted : WindowState → World → Bool × World → Type 0
  Attempted window w (done, w') =
      ((done ≡ false) × (w' ≡ w)) ⊎ ((done ≡ true) × OneMore window (file w'))

  -- a dispatch uses up one of the attempts that were left
  abbrev Spends : ℕ → World → Bool × World → Type 0
  Spends max w (done, w') =
      (left max (file w') + count_one done ≤ left max (file w)) × IsOwn name (file w')

module _ (cal : Calendar) (agent : AgentManifest) (sched : Schedule) (slug : Text)
    (policy : ResolvedPolicy) (expected : Instant) where
  -- Tick after tick on one window: how many runs are dispatched.
  unfoldable pub dispatches : List (Env × Instant) → World → ℕ
  dispatches [] w = 0
  dispatches ((env, now) ∷ ticks) w =
      let (done, w') = try_window cal agent sched slug policy expected env now w in
      count_one done + dispatches ticks w'

  abbrev pub IsSaved : Env × Instant → Type 0
  IsSaved (env, now) = env.window_saved ≡ true

  pub own-fresh :
      (o : Option WindowState)
      → IsOwn agent.name o
      → (unwrap_or o (fresh_window agent.name (schedule_id sched) expected)).agent ≡ agent.name
  own-fresh none h = refl
  own-fresh (some ws) h = h

  -- the file of the window in question
  abbrev pub stored : World → Option WindowState
  stored w = w.windows agent.name slug (cal.label expected)
