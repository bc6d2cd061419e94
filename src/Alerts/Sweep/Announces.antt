-- ===== src/Alerts/Sweep/Announces.antt =====
-- What the sweep says, and what it leaves as it was.
use dotagent.Common.{
  ◌≡◌, refl, Bool, true, false, Option, none, some, List, [], ◌∷◌, arith, Bool-cases, inl, inr,
  if◌then◌else◌, ◌∙◌,
}
use dotagent.Common.Text.{Text}
use dotagent.Common.Table
use dotagent.Time.{Instant, Calendar, timestamp}
use dotagent.Manifest.{Schedule, AgentManifest, WindowState, schedule_id}
use dotagent.Power.{PowerGate, defers}
use dotagent.Alerts.Dedup.{AlertEpisode}
use dotagent.Alerts.Dedup.Pairs.{clear_pair-kept}
use dotagent.Alerts.Sweep.{
  AlertVerdict, healthy, quiet, alert, Event, Files, SweepState, notify_channel, act, deliver,
  speak, sweep_pair, sweep_schedules, sweep_health_notifications,
}

-- what one pair does when the flag stays down
abbrev Untouched : SweepState → SweepState → Type 0
Untouched s s' = (s'.table ≡ s.table) × (s'.fired ≡ s.fired) × (s.changed ≡ false)

speak-Untouched :
    (name : Text) (sched : Schedule) (event channel : Event) (last : Option Instant)
    (window : Option WindowState) (now : Instant) (s : SweepState)
    → (speak name sched event channel last window now s).changed ≡ false
    → Untouched s (speak name sched event channel last window now s)
unfolding speak
speak-Untouched name sched event channel last window now s h = ground arith

deliver-Untouched :
    (o : Option Event) (name : Text) (sched : Schedule) (event : Event) (last : Option Instant)
    (window : Option WindowState) (now : Instant) (s : SweepState)
    → (deliver o name sched event last window now s).changed ≡ false
    → Untouched s (deliver o name sched event last window now s)
unfolding deliver
deliver-Untouched none name sched event last window now s h = (refl, refl, h)
deliver-Untouched (some channel) name sched event last window now s h =
    speak-Untouched name sched event channel last window now s h

act-Untouched :
    (v : AlertVerdict) (m : AgentManifest) (sched : Schedule) (last : Option Instant)
    (window : Option WindowState) (now : Instant) (s : SweepState)
    → (act v m sched last window now s).changed ≡ false
    → Untouched s (act v m sched last window now s)
unfolding act
act-Untouched healthy m sched last window now s h =
    ground (arith, clear_pair-kept s.table m.name (schedule_id sched))
act-Untouched quiet m sched last window now s h = (refl, refl, h)
act-Untouched (alert event) m sched last window now s h =
    deliver-Untouched (notify_channel m event) m.name sched event last window now s h

module _ (cal : Calendar) (files : Files) (power : PowerGate) (now : Instant) where
  sweep_pair-Untouched :
      (m : AgentManifest) (sched : Schedule) (s : SweepState)
      → (sweep_pair cal files power now m sched s).changed ≡ false
      → Untouched s (sweep_pair cal files power now m sched s)
  unfolding sweep_pair
  sweep_pair-Untouched m sched s h = elim (Bool-cases (defers power sched)) [
    | inl e ↦ rw e (refl, refl, rw e at h)
    | inr e ↦ rw e (act-Untouched _ m sched _ _ now s (rw e at h))
  ]

  sweep_schedules-Untouched :
      (m : AgentManifest) (scheds : List Schedule) (s : SweepState)
      → (sweep_schedules cal files power now m scheds s).changed ≡ false
      → Untouched s (sweep_schedules cal files power now m scheds s)
  unfolding sweep_schedules
  sweep_schedules-Untouched m [] s h = (refl, refl, h)
  sweep_schedules-Untouched m (sched ∷ rest) s h =
      let next = sweep_pair cal files power now m sched s in
      let (t, f, c) = sweep_schedules-Untouched m rest next h in
      let (t', f', c') = sweep_pair-Untouched m sched s c in (t ∙ t', f ∙ f', c')

  monitored-Untouched :
      (b : Bool) (m : AgentManifest) (s : SweepState)
      → (if b then sweep_schedules cal files power now m m.schedules s else s).changed ≡ false
      → Untouched s (if b then sweep_schedules cal files power now m m.schedules s else s)
  monitored-Untouched true m s h = sweep_schedules-Untouched m m.schedules s h
  monitored-Untouched false m s h = (refl, refl, h)

  -- What a sweep does not save it has not changed: if its `changed` flag is down at the end, the
  -- table of the episodes is the one that was loaded, and nothing was sent.
  pub sweep-unchanged :
      (agents : List AgentManifest) (s : SweepState)
      → (sweep_health_notifications cal files power now agents s).changed ≡ false
      → let s' = sweep_health_notifications cal files power now agents s in
        (s'.table ≡ s.table) × (s'.fired ≡ s.fired) × (s.changed ≡ false)
  unfolding sweep_health_notifications
  sweep-unchanged [] s h = (refl, refl, h)
  sweep-unchanged (m ∷ agents) s h =
      let next = if m.monitor then sweep_schedules cal files power now m m.schedules s else s in
      let (t, f, c) = sweep-unchanged agents next h in
      let (t', f', c') = monitored-Untouched m.monitor m s c in (t ∙ t', f ∙ f', c')

abbrev first_notice : Instant → AlertEpisode
first_notice now = record {
  first_notified_at = timestamp now;
  last_notified_at = timestamp now;
  count = 1;
}
