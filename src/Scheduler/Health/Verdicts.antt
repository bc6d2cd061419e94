-- ===== src/Scheduler/Health/Verdicts.antt =====
-- What the verdicts mean.
use dotagent.Common.{
  ℕ, zero, suc, ◌+◌, ◌*◌, ◌≤◌, ◌<◌, ◌≡◌, ◌↔◌, Option, some, List, arith, leb, Bool-cases, true,
  false, refl, inl, inr,
}
use dotagent.Common.Text.{Text}
use dotagent.Time.{Instant, Calendar, add_minutes}
use dotagent.Manifest.{Schedule, ScheduleOverrides, Heartbeat, WindowState, interval}
use dotagent.Scheduler.Policy.{ResolvedPolicy, is_stale}
use dotagent.Scheduler.Policy.Backoff.{is_stale_iff}
use dotagent.Scheduler.Windows.{last_success_of, first_missed_window}
use dotagent.Scheduler.Windows.Interval.{expected_at-interval}
use dotagent.Scheduler.Health.{stale, judge, after_success, after_miss, health_state, in_window}

module _ (policy : ResolvedPolicy) (ws : Option WindowState) where
  after_success-ne_stale : (after_success ws).0 ≡ stale → ⊥
  unfolding after_success
  after_success-ne_stale e = ground arith

  in_window-ne_stale : (exp now : Instant) → (in_window exp ws now).0 ≡ stale → ⊥
  unfolding in_window
  in_window-ne_stale exp now e = ground arith

  after_miss-stale_iff :
      (s : Schedule) (exp missed now : Instant) (last : Option Instant)
      → first_missed_window s last ≡ some missed
      → ((after_miss s policy last exp ws now).0 ≡ stale)
        ↔ (is_stale missed policy.stale_after_minutes now ≡ true)
  unfolding after_miss
  after_miss-stale_iff s exp missed now last h =
      rw h (elim (Bool-cases (is_stale missed policy.stale_after_minutes now)) [
        | inl b ↦ (λ _. b, λ _. rw b)
        | inr b ↦ (λ e. absurd (in_window-ne_stale exp now (rw b at e)), λ e. cc)
      ])

first_missed_window-interval :
    (id : Text) (iv : ℕ) (args : List Text) (ov : ScheduleOverrides) (ls : Instant)
    → 0 < iv
    → first_missed_window (interval id iv args ov) (some ls) ≡ some (add_minutes ls iv)
unfolding first_missed_window
first_missed_window-interval id zero args ov ls p = absurd (omega arith)
first_missed_window-interval id (suc i) args ov ls p = refl

module _ (cal : Calendar) (id : Text) (iv : ℕ) (args : List Text) (ov : ScheduleOverrides)
    (policy : ResolvedPolicy) (hb : Option Heartbeat) (ws : Option WindowState) (now ls : Instant)
    (positive : 0 < iv) (anchor : last_success_of hb ≡ some ls) (past : ls ≤ now) where
  abbrev late : Instant
  late = add_minutes (add_minutes ls iv) (policy.stale_after_minutes + 1)

  judge-stale_iff :
      (k : ℕ)
      → now < add_minutes ls (k * iv + iv)
      → ((judge (interval id iv args ov) policy (some (add_minutes ls (k * iv))) (some ls) ws now).0
          ≡ stale)
        ↔ (late ≤ now)
  judge-stale_iff zero next =
      let done : leb (add_minutes ls (0 * iv)) ls ≡ true = ground arith in
      rw done (λ e. absurd (after_success-ne_stale policy ws e), λ h. absurd (omega arith))
  judge-stale_iff (suc j) next =
      let open_window : leb (add_minutes ls (suc j * iv)) ls ≡ false = ground arith in
      let missed = first_missed_window-interval id iv args ov ls positive in
      let by_age = is_stale_iff (add_minutes ls iv) now policy.stale_after_minutes in
      let s = interval id iv args ov in
      let verdict = after_miss-stale_iff policy ws s (add_minutes ls (suc j * iv)) _ now _ missed in
      rw open_window (λ e. by_age.0 (verdict.0 e), λ h. verdict.1 (by_age.1 h))

  -- An interval schedule that succeeded once is stale exactly when the first window that it missed
  -- lies more than `stale_after_minutes` back, whatever its window file says.
  pub health_state-stale_iff :
      ((health_state cal (interval id iv args ov) policy hb ws now).0 ≡ stale)
      ↔ (add_minutes (add_minutes ls iv) (policy.stale_after_minutes + 1) ≤ now)
  unfolding health_state
  health_state-stale_iff =
      let (k, due, begun, next) = expected_at-interval cal id args ov iv now ls positive past in
      rw (anchor, due) (judge-stale_iff k next)
