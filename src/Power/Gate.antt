-- ===== src/Power/Gate.antt =====
-- The probe is skipped only where it could decide nothing.
use mathlib.Core.List.{Memᴰ}
use dotagent.Common.{◌≡◌, Bool, true, List, [], ◌∷◌, arith, any, is_some_and}
use dotagent.Manifest.{Schedule, overrides}
use dotagent.Power.{PowerSource, PowerConfig, is_defer, new_gate, detect_gate, defers}

own_policy : Schedule → Bool
own_policy s = is_some_and (overrides s).on_battery is_defer

any-mem :
    (s : Schedule) (schedules : List Schedule)
    → Memᴰ s schedules
    → own_policy s ≡ true
    → any (λ s. is_some_and (overrides s).on_battery is_defer) schedules ≡ true
unfolding own_policy
any-mem s [] m h = elim m [ ]
any-mem s (t ∷ ts) (Memᴰ.head e) h = rw (← e, h)
any-mem s (t ∷ ts) (Memᴰ.tail m) h = ground (arith, any-mem s ts m h)

-- For every schedule that the gate was built for, its decision is the one that the real reading of
-- the power source gives, also when the probe was skipped.
pub defers-detect_gate :
    (probe : PowerSource) (config : PowerConfig) (schedules : List Schedule) (s : Schedule)
    → Memᴰ s schedules
    → defers (detect_gate probe config schedules) s ≡ defers (new_gate probe config) s
unfolding defers detect_gate own_policy
defers-detect_gate probe config schedules s m = ground (arith, any-mem s schedules m)
