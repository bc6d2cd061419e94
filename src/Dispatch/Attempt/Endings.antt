-- ===== src/Dispatch/Attempt/Endings.antt =====
-- How a window ends: once given up it is left alone, and a request that was lost is never sent again.
use dotagent.Common.{ℕ, ◌≡◌, refl, inl, inr, true, false, some, Bool-cases, leb, unwrap_or}
use dotagent.Common.Int.{negsuc}
use dotagent.Common.Text.{Text, codes}
use dotagent.Time.{Instant, Calendar}
use dotagent.Manifest.{Schedule, WindowState, AgentManifest, schedule_id}
use dotagent.Scheduler.Policy.{ResolvedPolicy, should_retry}
use dotagent.Dispatch.Attempt.{
  World, Env, send, request_lost, mark_given_up, attempted, fresh_window, last_attempt, attempt,
  try_window,
}
use dotagent.Dispatch.Attempt.Budget.{IsOwn, own-fresh, give_up_self, stored}

-- a dispatch that lost its request leaves the window given up
attempt-lost :
    (window : WindowState) (name sched slug : Text) (policy : ResolvedPolicy) (label : ℕ)
    (env : Env) (now : Instant) (w : World) (message : Text)
    → env.window_saved ≡ true
    → window.agent ≡ name
    → env.result ≡ request_lost message
    → (attempt window name sched slug policy label env now w).0 ≡ true
    → (ws : WindowState) × ((attempt window name sched slug policy label env now w).1.windows name
          slug label
        ≡ some ws)
      × (ws.given_up ≡ true)
unfolding attempt
attempt-lost window name sched slug policy label env now w message saved own lost done =
    elim (Bool-cases window.given_up) [
      | inl over ↦ absurd (cc (rw over at done))
      | inr going ↦
          elim (Bool-cases
            (should_retry window.attempts (last_attempt window) policy.retry_backoff_minutes now)) [
              | inr wait ↦ absurd (cc (rw (going, wait) at done))
              | inl go ↦ elim (Bool-cases (leb policy.max_retries window.attempts)) [
                | inl burned ↦ absurd (cc (rw (going, go, burned) at done))
                | inr room ↦
                    let after = attempted window now (negsuc 0) message in
                    let told = send name sched (codes "attempt_failed") message w in
                    simp (going, go, room, lost)
                      (
                        mark_given_up after env.clock,
                        give_up_self name slug label sched after env told saved own,
                        refl,
                      )
              ]
            ]
    ]

module _ (cal : Calendar) (agent : AgentManifest) (sched : Schedule) (slug : Text)
    (policy : ResolvedPolicy) (expected : Instant) where
  -- a window that was given up is left alone
  given_up-idle :
      (env : Env) (now : Instant) (w : World) (ws : WindowState)
      → stored cal agent sched slug policy expected w ≡ some ws
      → ws.given_up ≡ true
      → try_window cal agent sched slug policy expected env now w ≡ (false, w)
  unfolding try_window
  given_up-idle env now w ws e over = rw (e, over) refl

  -- A request that was lost is not sent again: after a run that ended so, no later tick does
  -- anything about its window, as long as its file can be written.
  pub request_lost-final :
      (env env' : Env) (now now' : Instant) (w : World) (message : Text)
      → env.window_saved ≡ true
      → IsOwn agent.name (stored cal agent sched slug policy expected w)
      → env.result ≡ request_lost message
      → (try_window cal agent sched slug policy expected env now w).0 ≡ true
      → let w' = (try_window cal agent sched slug policy expected env now w).1 in
        try_window cal agent sched slug policy expected env' now' w' ≡ (false, w')
  unfolding try_window
  request_lost-final env env' now now' w message saved own lost done =
      let label = cal.label expected in
      let file = stored cal agent sched slug policy expected w in
      let (ws, on_file, over) =
        attempt-lost (unwrap_or file (fresh_window agent.name (schedule_id sched) expected))
          agent.name (schedule_id sched) slug policy label env now w message saved
          (own-fresh cal agent sched slug policy expected file own) lost done in
      given_up-idle env' now' _ ws on_file over
