-- ===== src/Wakeups/Summary.antt =====
-- Which summary is due, and that each day's goes out once.
use dotagent.Common.{
  ℕ, ◌+◌, ◌-◌, ◌≤◌, ◌<◌, ◌≡◌, sym, ◌⊎◌, inl, inr, true, ◌&&◌, Option, none, some, List, [], ◌∷◌,
  arith, ltb, Bool-cases, Option-cases, some_inj, or_option,
}
use dotagent.Time.{Instant, Calendar, add_minutes}
use dotagent.Wakeups.{
  DailySummaryConfig, opens, unless_on, summary_window_date, should_run_daily_summary, unless_on,
}
use dotagent.Wakeups.Sleep.{InOrder}

module _ (cal : Calendar) (local_at : ℕ → ℕ → Option Instant) where
  -- the window of a date is open
  abbrev pub IsOpen : Instant → ℕ → ℕ → ℕ → Type 0
  IsOpen now time grace d =
      (start : Instant) × (local_at d time ≡ some start)
      × (start ≤ now)
      × (now < add_minutes start grace)

  opens-IsOpen :
      (now time grace d : ℕ) → opens now grace (local_at d time) ≡ true → IsOpen now time grace d
  opens-IsOpen now time grace d h = elim (Option-cases (local_at d time)) [
    | inl n ↦ absurd (cc (rw n at h))
    | inr (start, e) ↦ let h' = rw e at h in (start, e, ground arith, ground arith)
  ]

  IsOpen-opens :
      (now time grace d : ℕ) → IsOpen now time grace d → opens now grace (local_at d time) ≡ true
  IsOpen-opens now time grace d (start, e, begun, before) = rw e ground arith

  -- The summary's date is the date on which a window that is open now has opened: today's window, or
  -- yesterday's if today's is not open.
  pub summary_window_date-IsOpen :
      (now time grace d : ℕ)
      → summary_window_date cal local_at now time grace ≡ some d
      → IsOpen now time grace d
        × ((d ≡ cal.date now)
            ⊎ ((d + 1 ≡ cal.date now) × (IsOpen now time grace (cal.date now) → ⊥)))
  unfolding summary_window_date
  summary_window_date-IsOpen now time grace d e =
      let today = cal.date now in
      elim (Bool-cases (opens now grace (local_at today time))) [
        | inl b ↦
            let is_today : today ≡ d = some_inj (rw b at e) in
            (rw (← is_today) (opens-IsOpen now time grace today b), inl (sym is_today))
        | inr b ↦ elim (Bool-cases (ltb 0 today && opens now grace (local_at (today - 1) time))) [
          | inr c ↦ absurd (cc (rw (b, c) at e))
          | inl c ↦
              let is_past : today - 1 ≡ d = some_inj (rw (b, c) at e) in
              let open_past : opens now grace (local_at (today - 1) time) ≡ true = ground arith in
              let some_day : ltb 0 today ≡ true = ground arith in
              (
                rw (← is_past) (opens-IsOpen now time grace (today - 1) open_past),
                inr (ground arith, λ is_open. cc (b, IsOpen-opens now time grace today is_open)),
              )
        ]
      ]

  abbrev add_date : Option ℕ → List ℕ → List ℕ
  add_date none ds = ds
  add_date (some d) ds = d ∷ ds

  -- The loop of the daemon over its ticks: the dates whose summary goes out. Each is recorded,
  -- delivered or not.
  unfoldable pub deliveries : DailySummaryConfig → Option ℕ → List Instant → List ℕ
  deliveries cfg last [] = []
  deliveries cfg last (now ∷ ticks) =
      let due = should_run_daily_summary cal local_at now last cfg in
      let later = deliveries cfg (or_option due last) ticks in add_date due later

-- ticks that come in order, from `t` on
abbrev pub Ascending : Instant → List Instant → Type 0
Ascending t [] = Unit
Ascending t (u ∷ us) = (t ≤ u) × Ascending u us

-- each date is after the one before
abbrev pub Increasing : Option ℕ → List ℕ → Type 0
Increasing last [] = Unit
Increasing none (d ∷ ds) = Increasing (some d) ds
Increasing (some e) (d ∷ ds) = (e < d) × Increasing (some d) ds

module _ (cal : Calendar) (local_at : ℕ → ℕ → Option Instant) (ordered : InOrder local_at)
    (in_time : (t u : Instant) → t ≤ u → cal.date t ≤ cal.date u) (cfg : DailySummaryConfig) where
  -- the date on record has begun
  abbrev Recorded : Option ℕ → Instant → Type 0
  Recorded none t = Unit
  Recorded (some d) t =
      (start : Instant) × (local_at d cfg.time ≡ some start) × (start ≤ t) × (d ≤ cal.date t)
