-- ===== src/Pool/Cells/Tracked.antt =====
-- No instance is lost: every cell that is not stopped is in the map, under one key.
use dotagent.Common.{
  ℕ, suc, ◌≤◌, ◌<◌, ◌≡◌, refl, sym, ap, ◌∙◌, ◌⊎◌, inl, inr, Bool, true, false, not, ◌&&◌, Option,
  none, some, arith, ◌==◌, if◌then◌else◌, Bool-cases, Option-cases, some_inj,
}
use dotagent.Common.Text.{Text, text_eq_iff}
use dotagent.Common.Table.{refl_text}
use dotagent.Pool.Exchange.{Instance}
use dotagent.Pool.Retry.{SlotState, starting, retiring, stopped, live}
use dotagent.Pool.Cells.{
  Cells, nothing_yet, owns, set_slot, set_at, is_stopped, reserve, drop_stopped, forget_slot,
  reaped_at, kept_entry, reap_dead, claimed, is_live, retire_slot, finish_retire, fill, Step,
  reserves, drops, locks, unlocks, spawns, fails, replies, gives_up, retires, finishes, forgets,
  sweeps, Reach, here, then_step,
}

-- where a cell is in the map
abbrev pub Owner : Cells → ℕ → Type 0
Owner s c = (name : Text) × (key : Text) × (s.slots name key ≡ some c)

pub record IsSound (s : Cells) : Type 0 where
  pub tracked : (c : ℕ) → is_stopped (s.state c) ≡ false → Owner s c
  pub allocated : (name key : Text) (c : ℕ) → s.slots name key ≡ some c → c < s.next
  pub stopped_beyond : (c : ℕ) → s.next ≤ c → is_stopped (s.state c) ≡ true
  pub one_key :
      (name key name' key' : Text) (c : ℕ)
      → s.slots name key ≡ some c
      → s.slots name' key' ≡ some c
      → (name ≡ name') × (key ≡ key')

-- a cell that runs now ran before, or has an entry of its own
was_running : (a b : Bool) → (a ≡ true → b ≡ true) → b ≡ false → a ≡ false
was_running true b only e = absurd (cc (only refl, e))
was_running false b only e = refl

-- A step that drops entries of stopped cells only, and starts no cell.
fewer :
    (s : Cells) (slots : Text → Text → Option ℕ) (state : ℕ → SlotState) (held : ℕ → Bool)
    → ((c : ℕ) → is_stopped (s.state c) ≡ true → is_stopped (state c) ≡ true)
    → ((name key : Text) (c : ℕ) → slots name key ≡ some c → s.slots name key ≡ some c)
    → ((name key : Text) (c : ℕ)
        → s.slots name key ≡ some c
        → is_stopped (state c) ≡ false
        → slots name key ≡ some c)
    → IsSound s
    → IsSound (record { slots = slots; state = state; held = held; next = s.next })
fewer s slots state held only sub keeps i = record {
  tracked = λ c run.
      let (name, key, e) = i.tracked c (was_running _ _ (only c) run) in
      (name, key, keeps name key c e run);
  allocated = λ name key c e. i.allocated name key c (sub name key c e);
  stopped_beyond = λ c far. only c (i.stopped_beyond c far);
  one_key = λ name key name' key' c e e'.
      i.one_key name key name' key' c (sub name key c e) (sub name' key' c e');
}

-- one that leaves the map alone
same_map :
    (s : Cells) (state : ℕ → SlotState) (held : ℕ → Bool)
    → ((c : ℕ) → is_stopped (s.state c) ≡ true → is_stopped (state c) ≡ true)
    → IsSound s
    → IsSound (record { slots = s.slots; state = state; held = held; next = s.next })
same_map s state held only i =
    fewer s s.slots state held only (λ name key c e. e) (λ name key c e run. e) i

-- one that moves a cell: to be stopped, or on from running
moved :
    (f : ℕ → SlotState) (c : ℕ) (to : SlotState)
    → (is_stopped (f c) ≡ true → is_stopped to ≡ true)
    → (d : ℕ) → is_stopped (f d) ≡ true
    → is_stopped (set_at f c to d) ≡ true
moved f c to only d e = elim (Bool-cases (d == c)) [
  | inr b ↦ rw b e
  | inl b ↦ let same : d ≡ c = ground arith in rw b (only (rw (sym same) e))
]

owns_eq :
    (name key name' key' : Text) → owns name key name' key' ≡ true → (name ≡ name') × (key ≡ key')
owns_eq name key name' key' e = ground (arith, text_eq_iff name name', text_eq_iff key key')

-- an entry is dropped whose cell is stopped
dropped :
    (s : Cells) (name key : Text) (c : ℕ)
    → s.slots name key ≡ some c
    → is_stopped (s.state c) ≡ true
    → IsSound s
    → IsSound (record {
      slots = set_slot s.slots name key none;
      state = s.state;
      held = s.held;
      next = s.next;
    })
dropped s name key c entry gone i =
    fewer s (set_slot s.slots name key none) s.state s.held (λ d e. e) sub keeps i
  where
    sub : (n k : Text) (d : ℕ) → set_slot s.slots name key none n k ≡ some d → s.slots n k ≡ some d
    sub n k d e = elim (Bool-cases (owns name key n k)) [
      | inl b ↦ absurd (cc (rw b at e))
      | inr b ↦ rw b at e
    ]

    keeps :
        (n k : Text) (d : ℕ)
        → s.slots n k ≡ some d
        → is_stopped (s.state d) ≡ false
        → set_slot s.slots name key none n k ≡ some d
    keeps n k d e run = elim (Bool-cases (owns name key n k)) [
      | inr b ↦ rw b e
      | inl b ↦
          let same = owns_eq name key n k b in
          let one : d ≡ c = some_inj (cc (e, entry, same.0, same.1)) in absurd (cc (run, gone, one))
    ]

-- a key without an entry gets a new cell
reserve-IsSound :
    (s : Cells) (name key : Text)
    → s.slots name key ≡ none
    → IsSound s
    → IsSound (reserve name key s)
unfolding reserve
reserve-IsSound s name key free i = record {
  tracked = tracked';
  allocated = allocated';
  stopped_beyond = beyond';
  one_key = one_key';
}
  where
    -- an entry is the new one or an old one
    which :
        (n k : Text) (d : ℕ)
        → set_slot s.slots name key (some s.next) n k ≡ some d
        → ((name ≡ n) × (key ≡ k) × (s.next ≡ d)) ⊎ (s.slots n k ≡ some d)
    which n k d e = elim (Bool-cases (owns name key n k)) [
      | inl b ↦ let same = owns_eq name key n k b in inl (same.0, same.1, some_inj (rw b at e))
      | inr b ↦ inr (rw b at e)
    ]

    tracked' :
        (d : ℕ)
        → is_stopped (set_at s.state s.next starting d) ≡ false
        → (n : Text) × (k : Text) × (set_slot s.slots name key (some s.next) n k ≡ some d)
    tracked' d run = elim (Bool-cases (d == s.next)) [
      | inl b ↦
          let new : s.next ≡ d = ground arith in
          (name, key, rw (refl_text name, refl_text key) (ap (λ (c : ℕ). some c) new))
      | inr b ↦
          let (n, k, e) = i.tracked d (rw b at run) in
          (
            n,
            k,
            elim (Bool-cases (owns name key n k)) [
              | inr c ↦ rw c e
              | inl c ↦ let same = owns_eq name key n k c in absurd (cc (free, e, same.0, same.1))
            ],
          )
    ]

    allocated' :
        (n k : Text) (d : ℕ) → set_slot s.slots name key (some s.next) n k ≡ some d → d < suc s.next
    allocated' n k d e = elim (which n k d e) [
      | inl (_, _, new) ↦ omega arith
      | inr old ↦ omega (arith, i.allocated n k d old)
    ]

    beyond' : (d : ℕ) → suc s.next ≤ d → is_stopped (set_at s.state s.next starting d) ≡ true
    beyond' d far =
        let other : (d == s.next) ≡ false = ground arith in
        rw other (i.stopped_beyond d (omega arith))

    one_key' :
        (n k n' k' : Text) (d : ℕ)
        → set_slot s.slots name key (some s.next) n k ≡ some d
        → set_slot s.slots name key (some s.next) n' k' ≡ some d
        → (n ≡ n') × (k ≡ k')
    one_key' n k n' k' d e e' = elim (which n k d e) [
      | inl (p, q, new) ↦ elim (which n' k' d e') [
        | inl (p', q', _) ↦ (sym p ∙ p', sym q ∙ q')
        | inr old ↦ absurd (omega (arith, i.allocated n' k' d old, new))
      ]
      | inr old ↦ elim (which n' k' d e') [
        | inl (_, _, new) ↦ absurd (omega (arith, i.allocated n k d old, new))
        | inr old' ↦ i.one_key n k n' k' d old old'
      ]
    ]

drop_stopped-IsSound : (s : Cells) (name key : Text) → IsSound s → IsSound (drop_stopped name key s)
unfolding drop_stopped
drop_stopped-IsSound s name key i = elim (Option-cases (s.slots name key)) [
  | inl n ↦ simp n i
  | inr (c, e) ↦ elim (Bool-cases (not (s.held c) && is_stopped (s.state c))) [
    | inl b ↦ simp (e, b) (dropped s name key c e (ground arith) i)
    | inr b ↦ simp (e, b) i
  ]
]

forget_slot-IsSound :
    (s : Cells) (name key : Text) (c : ℕ)
    → s.state c ≡ stopped
    → IsSound s
    → IsSound (forget_slot name key c s)
unfolding forget_slot
forget_slot-IsSound s name key c gone i = elim (Option-cases (s.slots name key)) [
  | inl n ↦ simp n i
  | inr (d, e) ↦ elim (Bool-cases (d == c)) [
    | inl b ↦
        let same : d ≡ c = ground arith in
        let stopped_d : is_stopped (s.state d) ≡ true = rw (same, gone) refl in
        simp (e, b) (dropped s name key d e stopped_d i)
    | inr b ↦ simp (e, b) i
  ]
]

reap_dead-IsSound : (s : Cells) (exited : ℕ → Bool) → IsSound s → IsSound (reap_dead exited s)
unfolding reap_dead
reap_dead-IsSound s exited i =
    fewer s (λ name key. kept_entry exited s (s.slots name key))
      (λ c. if reaped_at exited s c then stopped else s.state c) s.held only sub keeps i
  where
    only :
        (c : ℕ)
        → is_stopped (s.state c) ≡ true
        → is_stopped (if reaped_at exited s c then stopped else s.state c) ≡ true
    only c e = elim (Bool-cases (reaped_at exited s c)) [ inl b ↦ rw b refl | inr b ↦ rw b e ]

    sub : (n k : Text) (d : ℕ) → kept_entry exited s (s.slots n k) ≡ some d → s.slots n k ≡ some d
    sub n k d e = elim (Option-cases (s.slots n k)) [
      | inl none_there ↦ absurd (cc (rw none_there at e))
      | inr (c, there) ↦ elim (Bool-cases (reaped_at exited s c)) [
        | inl b ↦ absurd (cc (rw (there, b) at e))
        | inr b ↦ there ∙ (rw (there, b) at e)
      ]
    ]

    keeps :
        (n k : Text) (d : ℕ)
        → s.slots n k ≡ some d
        → is_stopped (if reaped_at exited s d then stopped else s.state d) ≡ false
        → kept_entry exited s (s.slots n k) ≡ some d
    keeps n k d e run = elim (Bool-cases (reaped_at exited s d)) [
      | inl b ↦ absurd (cc (rw b at run))
      | inr b ↦ rw (e, b) refl
    ]

-- a cell that is in another state than stopped may be moved to any
runs_on :
    (from to : SlotState) → is_stopped from ≡ false → is_stopped from ≡ true → is_stopped to ≡ true
runs_on from to run gone = absurd (cc (run, gone))

claimed-stopped : (from : SlotState) → is_stopped from ≡ true → is_stopped (claimed from) ≡ true
claimed-stopped starting e = refl
claimed-stopped retiring e = refl
claimed-stopped stopped e = refl
claimed-stopped (live inst) e = cc

fill-IsSound :
    (s : Cells) (c : ℕ) (to : SlotState)
    → (is_stopped (s.state c) ≡ true → is_stopped to ≡ true)
    → IsSound s
    → IsSound (fill c to s)
unfolding fill
fill-IsSound s c to only i = same_map s (set_at s.state c to) s.held (moved s.state c to only) i

Step-IsSound : {s t : Cells} → Step s t → IsSound s → IsSound t
Step-IsSound (reserves s name key free) i = reserve-IsSound s name key free i
Step-IsSound (drops s name key) i = drop_stopped-IsSound s name key i
Step-IsSound (locks s c free) i = same_map s s.state (set_at s.held c true) (λ d e. e) i
Step-IsSound (unlocks s c taken) i = same_map s s.state (set_at s.held c false) (λ d e. e) i
Step-IsSound (spawns s c inst taken e) i =
    fill-IsSound s c (live inst) (runs_on (s.state c) (live inst) (rw e refl)) i
Step-IsSound (fails s c taken e) i = fill-IsSound s c stopped (λ _. refl) i
Step-IsSound (replies s c inst inst' taken e) i =
    fill-IsSound s c (live inst') (runs_on (s.state c) (live inst') (rw e refl)) i
Step-IsSound (gives_up s c inst taken e) i =
    fill-IsSound s c retiring (runs_on (s.state c) retiring (rw e refl)) i
Step-IsSound (retires s c free) i =
    unfold retire_slot in
    same_map s (set_at s.state c (claimed (s.state c))) (set_at s.held c (is_live (s.state c)))
      (moved s.state c (claimed (s.state c)) (claimed-stopped (s.state c))) i
Step-IsSound (finishes s c taken e) i =
    unfold finish_retire in
    same_map s (set_at s.state c stopped) (set_at s.held c false)
      (moved s.state c stopped (λ _. refl)) i
Step-IsSound (forgets s name key c e) i = forget_slot-IsSound s name key c e i
Step-IsSound (sweeps s exited) i = reap_dead-IsSound s exited i

Reach-IsSound : {s t : Cells} → Reach s t → IsSound s → IsSound t
Reach-IsSound here i = i
Reach-IsSound (then_step r step) i = Step-IsSound step (Reach-IsSound r i)

nothing_yet-IsSound : IsSound nothing_yet
nothing_yet-IsSound = record {
  tracked = λ c run. absurd (cc run);
  allocated = λ name key c e. absurd (cc e);
  stopped_beyond = λ c far. refl;
  one_key = λ name key name' key' c e e'. absurd (cc e);
}

-- Whatever requests, evictions, reloads and sweeps run at the same time, every instance of the pool
-- that is live is in the map, so that a drain finds it, and under one key only.
pub Reach-tracked :
    {s : Cells} (c : ℕ) (inst : Instance)
    → Reach nothing_yet s
    → s.state c ≡ live inst
    → (name : Text) × (key : Text) × (s.slots name key ≡ some c)
      × ((name' key' : Text) → s.slots name' key' ≡ some c → (name ≡ name') × (key ≡ key'))
Reach-tracked {s} c inst r e =
    let i = Reach-IsSound r nothing_yet-IsSound in
    let (name, key, owned) = i.tracked c (rw e refl) in
    (name, key, owned, λ name' key' owned'. i.one_key name key name' key' c owned owned')
