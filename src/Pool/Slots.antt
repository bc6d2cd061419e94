-- ===== src/Pool/Slots.antt =====
-- The map of the pool, `slot_for`, `touch` and `forget_slot` of
-- crates/dotagent-runner/src/persistent.rs. The allocation lock is held for the whole of `slot_for`,
-- so no other call adds a slot meanwhile.
pub mod Ceiling
use dotagent.Common.{
  ℕ, zero, suc, ◌+◌, Bool, true, false, not, ◌&&◌, Option, none, some, List, [], ◌∷◌, ltb, leb,
  if◌then◌else◌, any, retain,
}
use dotagent.Common.Text.{Text, text_eq}
use dotagent.Pool.Retry.{SlotState, starting, retiring, stopped, live}

-- an entry of the map with its cell: `held` while a task has the cell's lock
pub record Slot : Type 0 where
  pub agent : Text
  pub key : Text
  pub state : SlotState
  pub held : Bool
  pub last_used : ℕ

abbrev pub Slots : Type 0
Slots = List Slot

abbrev pub owns : Text → Text → Slot → Bool
owns name key s = text_eq s.agent name && text_eq s.key key

-- does the key have an entry?
unfoldable pub has_slot : Slots → Text → Text → Bool
has_slot slots name key = any (owns name key) slots

-- `forget_slot`
unfoldable pub forget_slot : Slots → Text → Text → Slots
forget_slot slots name key = retain (λ s. not (owns name key s)) slots

-- `mine.len()`
unfoldable pub count_mine : Slots → Text → ℕ
count_mine [] name = 0
count_mine (s ∷ slots) name = (if text_eq s.agent name then 1 else 0) + count_mine slots name

abbrev is_stopped : SlotState → Bool
is_stopped stopped = true
is_stopped _ = false

-- stopped, and its lock is free
abbrev is_gone : Text → Text → Slot → Bool
is_gone name key s = owns name key s && (not s.held && is_stopped s.state)

-- `touch`
unfoldable pub touch : Slots → Text → Text → ℕ → Slots
touch [] name key now = []
touch (s ∷ slots) name key now =
    (if owns name key s then record s { last_used = now } else s) ∷ touch slots name key now

-- the one of two that was used earlier
abbrev older : Slot → Option Slot → Slot
older s none = s
older s (some t) = if leb s.last_used t.last_used then s else t

-- `min_by_key` over the agent's own
unfoldable pub victim : Slots → Text → Option Slot
victim [] name = none
victim (s ∷ slots) name =
    let rest = victim slots name in if text_eq s.agent name then some (older s rest) else rest

abbrev forget_victim : Option Slot → Slots → Text → Slots
forget_victim none slots name = slots
forget_victim (some v) slots name = forget_slot slots name v.key

-- the victim is retired, and forgotten once it has stopped
evict_slot : Slots → Text → Slots
unfolding victim forget_slot
evict_slot slots name = forget_victim (victim slots name) slots name

abbrev reservation : Text → Text → ℕ → Slot
reservation name key now = record {
  agent = name;
  key = key;
  state = starting;
  held = false;
  last_used = now;
}

-- The loop, on so many rounds: an entry that is not gone is used, one that is gone is dropped; a new
-- one is reserved if there is room, and else the oldest makes room.
slot_rounds : ℕ → Slots → Text → Text → ℕ → ℕ → Slots
unfolding has_slot touch evict_slot count_mine
slot_rounds zero slots name key max now = slots
slot_rounds (suc rounds) slots name key max now =
    let left = if any (is_gone name key) slots then forget_slot slots name key else slots in
    let later = slot_rounds rounds (evict_slot left name) name key max now in
    if has_slot left name key
    then touch left name key now
    else (if ltb (count_mine left name) max then reservation name key now ∷ left else later)

-- each round but the last retires one of the agent's slots, so there are no more rounds than these
-- and one
unfoldable pub slot_for : Slots → Text → Text → ℕ → ℕ → Slots
unfolding slot_rounds
slot_for slots name key max now = slot_rounds (suc (count_mine slots name)) slots name key max now
