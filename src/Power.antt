-- ===== src/Power.antt =====
-- crates/dotagent-core/src/power.rs and the gate of crates/dotagent/src/power.rs: which due runs a
-- machine on battery holds back. The reading of the battery (`detect`) is the argument `probe`.
pub mod Gate
use dotagent.Common.{
  ℕ, zero, suc, Bool, true, false, ◌||◌, Option, none, some, List, [], ◌∷◌, ltb, if◌then◌else◌,
  unwrap_or, is_some_and, any,
}
use dotagent.Manifest.{PowerPolicy, run, defer, Schedule, overrides}

pub data PowerSource : Type 0 where
  ac : PowerSource
  battery : Option ℕ → PowerSource
  unknown : PowerSource

pub record PowerConfig : Type 0 where
  pub on_battery : PowerPolicy
  pub min_battery_percent : ℕ

-- the `match percent`
below_floor : Option ℕ → ℕ → Bool
below_floor none min_battery_percent = false
below_floor (some p) min_battery_percent =
    if ltb 0 min_battery_percent then ltb p min_battery_percent else false

unfoldable pub should_defer : PowerSource → PowerPolicy → ℕ → Bool
unfolding below_floor
should_defer ac policy min_battery_percent = false
should_defer unknown policy min_battery_percent = false
should_defer (battery percent) defer min_battery_percent = true
should_defer (battery percent) run min_battery_percent = below_floor percent min_battery_percent

pub record PowerGate : Type 0 where
  pub source : PowerSource
  pub on_battery : PowerPolicy
  pub min_battery_percent : ℕ

abbrev is_defer : PowerPolicy → Bool
is_defer run = false
is_defer defer = true

unfoldable pub would_probe : PowerConfig → List Schedule → Bool
unfolding overrides
would_probe config schedules =
    is_defer config.on_battery
    || ltb 0 config.min_battery_percent
    || any (λ s. is_some_and (overrides s).on_battery is_defer) schedules

-- `PowerGate::new`
unfoldable pub new_gate : PowerSource → PowerConfig → PowerGate
new_gate source config = record {
  source = source;
  on_battery = config.on_battery;
  min_battery_percent = config.min_battery_percent;
}

-- `PowerGate::detect`; what the probe would read is an argument
unfoldable pub detect_gate : PowerSource → PowerConfig → List Schedule → PowerGate
unfolding would_probe new_gate
detect_gate probe config schedules =
    new_gate (if would_probe config schedules then probe else unknown) config

unfoldable pub defers : PowerGate → Schedule → Bool
unfolding should_defer overrides
defers gate sched =
    should_defer gate.source (unwrap_or (overrides sched).on_battery gate.on_battery)
      gate.min_battery_percent
