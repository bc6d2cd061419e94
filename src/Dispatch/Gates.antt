-- ===== src/Dispatch/Gates.antt =====
-- What has to hold for a run to be dispatched.
use dotagent.Common.{
  ◌≤◌, ◌≡◌, ◌⊎◌, inl, inr, false, Option, some, List, arith, Bool-cases, Option-cases, leb, ltb,
  is_some_and,
}
use dotagent.Common.Text.{Text}
use dotagent.Time.{Instant, Calendar}
use dotagent.Manifest.{Schedule, Heartbeat, AgentManifest}
use dotagent.Power.{PowerGate, defers}
use dotagent.Scheduler.Policy.{resolve, is_stale}
use dotagent.Scheduler.Windows.{expected_at, last_success_of}
use dotagent.Dispatch.Attempt.{World, Env}
use dotagent.Dispatch.{dispatch_one, consider}

module _ (cal : Calendar) (slug_from_args : List Text → Text) (agent : AgentManifest)
    (sched : Schedule) (env : Env) (power : PowerGate) (now : Instant) (hb : Option Heartbeat)
    (w : World) where
  -- the window is due, not yet succeeded, not stale, and not held back
  abbrev pub IsDue : Instant → Type 0
  IsDue expected =
      (expected_at cal sched now (last_success_of hb) ≡ some expected)
      × (expected ≤ now)
      × (is_some_and (last_success_of hb) (λ ls. leb expected ls) ≡ false)
      × (is_stale expected (resolve agent.defaults sched).stale_after_minutes now ≡ false)
      × (defers power sched ≡ false)

  -- the gates one after the other
  considered :
      (expected : Instant) (ls : Option Instant)
      → (consider cal slug_from_args (some expected) ls agent sched env power now w ≡ (false, w))
        ⊎ ((expected ≤ now)
            × (is_some_and ls (λ t. leb expected t) ≡ false)
            × (is_stale expected (resolve agent.defaults sched).stale_after_minutes now ≡ false)
            × (defers power sched ≡ false))
  unfolding consider
  considered expected ls = elim (Bool-cases (ltb now expected)) [
    | inl a ↦ inl (rw a)
    | inr a ↦ elim (Bool-cases (is_some_and ls (λ t. leb expected t))) [
      | inl b ↦ inl (rw (a, b))
      | inr b ↦
          elim (Bool-cases
            (is_stale expected (resolve agent.defaults sched).stale_after_minutes now)) [
              | inl c ↦ inl (rw (a, b, c))
              | inr c ↦ elim (Bool-cases (defers power sched)) [
                | inl d ↦ inl (rw (a, b, c, d))
                | inr d ↦ inr (ground arith, b, c, d)
              ]
            ]
    ]
  ]

  -- A tick leaves everything as it was, or it found a window that is due: one that has begun, has
  -- not succeeded since, is not stale, and is not held back by the power policy.
  pub dispatch_one-IsDue :
      (dispatch_one cal slug_from_args agent sched env power now hb w ≡ (false, w))
      ⊎ ((expected : Instant) × IsDue expected)
  unfolding dispatch_one
  dispatch_one-IsDue = elim (Option-cases (expected_at cal sched now (last_success_of hb))) [
    | inl n ↦ inl (rw n)
    | inr (expected, e) ↦ elim (considered expected (last_success_of hb)) [
      | inl idle ↦ inl (rw e idle)
      | inr due ↦ inr (expected, (e, due.0, due.1, due.2, due.3))
    ]
  ]
