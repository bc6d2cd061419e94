-- ===== src/Tests/Dispatching.antt =====
-- Ticks of the dispatcher on concrete windows.
use dotagent.Common.{◌+◌, ◌*◌, ◌≡◌, refl, ◌⊎◌, true, false, some, List, [], ◌∷◌}
use dotagent.Common.Text.{Text, codes}
use dotagent.Common.Int.{pos}
use dotagent.Time.{Instant, utc, minute_ns, hour_ns, timestamp}
use dotagent.Dispatch.Attempt.{Env, ran, request_lost, try_window}
use dotagent.Dispatch.Attempt.Budget.{dispatches}
use dotagent.Dispatch.Attempt.Endings.{request_lost-final}
use dotagent.Dispatch.Gates.{IsDue, dispatch_one-IsDue}
use dotagent.Dispatch.{dispatch_one}
use dotagent.Manifest.{Heartbeat}
use dotagent.Power.{defers}
use dotagent.Scheduler.Policy.{resolve, is_stale, should_retry}
use dotagent.Scheduler.Windows.{expected_at, last_success_of}
use dotagent.Tests.Data.{
  hourly, noon, standard, briefing, beat, plugged_in, empty_world, surroundings,
}

-- a run that fails
abbrev failure : Instant → Env
failure t = surroundings (ran (pos 1) (codes "boom") []) t

-- a tick a quarter of an hour, all of them failing
abbrev failing_ticks : List (Env × Instant)
failing_ticks =
    (failure noon, noon)
    ∷ (failure noon, noon + 15 * minute_ns)
    ∷ (failure noon, noon + 30 * minute_ns)
    ∷ (failure noon, noon + 45 * minute_ns)
    ∷ (failure noon, noon + 60 * minute_ns)
    ∷ []

-- three of the five ticks dispatch
three_dispatches :
    dispatches utc briefing hourly (codes "default") standard noon failing_ticks empty_world ≡ 3
unfolding dispatches try_window should_retry
three_dispatches = refl

abbrev lost : Env
lost = surroundings (request_lost (codes "no answer")) noon

request_lost-final_example :
    let w =
      (try_window utc briefing hourly (codes "default") standard noon lost noon empty_world).1 in
    try_window utc briefing hourly (codes "default") standard noon (failure noon) (noon + hour_ns) w
    ≡ (false, w)
unfolding try_window should_retry
request_lost-final_example =
    request_lost-final utc briefing hourly (codes "default") standard noon lost (failure noon) noon
      (noon + hour_ns) empty_world (codes "no answer") refl tt refl refl

-- the slug of a run without arguments
abbrev default_slug : List Text → Text
default_slug args = codes "default"

abbrev two_hours_old : Heartbeat
two_hours_old = beat (timestamp noon + 7200)

dispatch_one-IsDue_example :
    (dispatch_one utc default_slug briefing hourly
        (failure noon)
        plugged_in
        (noon + 4 * hour_ns)
        (some two_hours_old)
        empty_world
      ≡ (false, empty_world))
    ⊎ ((expected : Instant) × IsDue utc default_slug briefing hourly
          (failure noon)
          plugged_in
          (noon + 4 * hour_ns)
          (some two_hours_old)
          empty_world
          expected)
dispatch_one-IsDue_example =
    dispatch_one-IsDue utc default_slug briefing hourly (failure noon) plugged_in
      (noon + 4 * hour_ns) (some two_hours_old) empty_world

-- and the run is dispatched
dispatched :
    (dispatch_one utc default_slug briefing hourly
      (failure noon)
      plugged_in
      (noon + 4 * hour_ns)
      (some two_hours_old)
      empty_world).0
    ≡ true
unfolding dispatch_one expected_at last_success_of is_stale resolve defers try_window should_retry
dispatched = refl
