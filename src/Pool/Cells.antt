-- ===== src/Pool/Cells.antt =====
-- The cells of the pool and the map over them, as calls that run at the same time change them:
-- crates/dotagent-runner/src/persistent.rs. The map is behind one lock, each cell behind its own, and
-- a step is what a call does under them; what stands between two steps of one call may be steps of
-- others.
pub mod Tracked
use dotagent.Common.{
  ℕ, suc, ◌+◌, ◌≡◌, Bool, true, false, not, ◌&&◌, Option, none, some, ◌==◌, if◌then◌else◌, is_some,
}
use dotagent.Common.Text.{Text, text_eq}
use dotagent.Pool.Exchange.{Instance}
use dotagent.Pool.Retry.{SlotState, starting, retiring, stopped, live}

-- The map from an agent and a key to a cell; the state of each cell, by its address, and whether its
-- lock is taken; the next address.
pub record Cells : Type 0 where
  pub slots : Text → Text → Option ℕ
  pub state : ℕ → SlotState
  pub held : ℕ → Bool
  pub next : ℕ

abbrev pub nothing_yet : Cells
nothing_yet = record { slots = λ name key. none; state = λ c. stopped; held = λ c. false; next = 0 }

abbrev pub owns : Text → Text → Text → Text → Bool
owns name key name' key' = text_eq name name' && text_eq key key'

abbrev pub set_slot : (Text → Text → Option ℕ) → Text → Text → Option ℕ → Text → Text → Option ℕ
set_slot slots name key o name' key' = if owns name key name' key' then o else slots name' key'

abbrev pub set_at {ℓ} : {A : Type ℓ} → (ℕ → A) → ℕ → A → ℕ → A
set_at f c a d = if d == c then a else f d

abbrev pub is_stopped : SlotState → Bool
is_stopped stopped = true
is_stopped _ = false

-- `slot_for`: a new cell for a key that has none
unfoldable pub reserve : Text → Text → Cells → Cells
reserve name key s = record s {
  slots = set_slot s.slots name key (some s.next);
  state = set_at s.state s.next starting;
  held = set_at s.held s.next false;
  next = suc s.next;
}

-- `slot_for`: an entry whose cell is free and stopped is dropped
abbrev is_gone : Cells → Option ℕ → Bool
is_gone s none = false
is_gone s (some c) = not (s.held c) && is_stopped (s.state c)

unfoldable pub drop_stopped : Text → Text → Cells → Cells
drop_stopped name key s =
    if is_gone s (s.slots name key) then record s { slots = set_slot s.slots name key none } else s

-- `forget_slot`: the entry goes only if it still is for this cell
abbrev is_current : Option ℕ → ℕ → Bool
is_current none c = false
is_current (some d) c = d == c

unfoldable pub forget_slot : Text → Text → ℕ → Cells → Cells
forget_slot name key c s =
    if is_current (s.slots name key) c
    then record s { slots = set_slot s.slots name key none }
    else s

-- `reap_dead`: under one hold of the map, the entries whose cell is free and stopped or dead
abbrev is_reaped : (ℕ → Bool) → Bool → SlotState → ℕ → Bool
is_reaped exited true state c = false
is_reaped exited false stopped c = true
is_reaped exited false (live inst) c = exited c
is_reaped exited false _ c = false

abbrev reaped_at : (ℕ → Bool) → Cells → ℕ → Bool
reaped_at exited s c = is_reaped exited (s.held c) (s.state c) c

abbrev kept_entry : (ℕ → Bool) → Cells → Option ℕ → Option ℕ
kept_entry exited s none = none
kept_entry exited s (some c) = if reaped_at exited s c then none else some c

unfoldable pub reap_dead : (ℕ → Bool) → Cells → Cells
reap_dead exited s = record s {
  slots = λ name key. kept_entry exited s (s.slots name key);
  state = λ c. if reaped_at exited s c then stopped else s.state c;
}

-- `retire_slot`, once the cell's lock is had: a live instance is being retired, and anything else is
-- stopped at once
abbrev claimed : SlotState → SlotState
claimed (live inst) = retiring
claimed _ = stopped

abbrev is_live : SlotState → Bool
is_live (live inst) = true
is_live _ = false

unfoldable pub retire_slot : ℕ → Cells → Cells
retire_slot c s = record s {
  state = set_at s.state c (claimed (s.state c));
  held = set_at s.held c (is_live (s.state c));
}

-- `retire_held`: the process is gone, and the lock is given back
unfoldable pub finish_retire : ℕ → Cells → Cells
finish_retire c s = record s { state = set_at s.state c stopped; held = set_at s.held c false }

unfoldable pub fill : ℕ → SlotState → Cells → Cells
fill c to s = record s { state = set_at s.state c to }

abbrev pub lock : ℕ → Bool → Cells → Cells
lock c taken s = record s { held = set_at s.held c taken }

-- one step of some call
pub data Step : Cells → Cells → Type 0 where
  reserves : (s : Cells) (name key : Text) → s.slots name key ≡ none → Step s (reserve name key s)
  drops : (s : Cells) (name key : Text) → Step s (drop_stopped name key s)
  -- a request takes the lock of a cell, and gives it back
  locks : (s : Cells) (c : ℕ) → s.held c ≡ false → Step s (lock c true s)
  unlocks : (s : Cells) (c : ℕ) → s.held c ≡ true → Step s (lock c false s)
  -- the holder has spawned an instance for its reservation, or could not, or the instance has
  -- answered or is to be retired
  spawns :
      (s : Cells) (c : ℕ) (inst : Instance)
      → s.held c ≡ true
      → s.state c ≡ starting
      → Step s (fill c (live inst) s)
  fails : (s : Cells) (c : ℕ) → s.held c ≡ true → s.state c ≡ starting → Step s (fill c stopped s)
  replies :
      (s : Cells) (c : ℕ) (inst inst' : Instance)
      → s.held c ≡ true
      → s.state c ≡ live inst
      → Step s (fill c (live inst') s)
  gives_up :
      (s : Cells) (c : ℕ) (inst : Instance)
      → s.held c ≡ true
      → s.state c ≡ live inst
      → Step s (fill c retiring s)
  -- an eviction, a reload or a shutdown takes the lock and retires
  retires : (s : Cells) (c : ℕ) → s.held c ≡ false → Step s (retire_slot c s)
  finishes :
      (s : Cells) (c : ℕ) → s.held c ≡ true → s.state c ≡ retiring → Step s (finish_retire c s)
  -- whoever stopped a cell forgets its entry, maybe much later
  forgets :
      (s : Cells) (name key : Text) (c : ℕ)
      → s.state c ≡ stopped
      → Step s (forget_slot name key c s)
  sweeps : (s : Cells) (exited : ℕ → Bool) → Step s (reap_dead exited s)

pub data Reach (start : Cells) : Cells → Type 0 where
  here : Reach start start
  then_step : {s t : Cells} → Reach start s → Step s t → Reach start t
