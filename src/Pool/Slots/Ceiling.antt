-- ===== src/Pool/Slots/Ceiling.antt =====
-- The ceiling of an agent's instances is hard, and every request gets a slot.
use dotagent.Common.{
  ℕ, zero, suc, ◌≤◌, ◌<◌, ◌≡◌, refl, sym, ap, ◌∙◌, some_inj, ◌⊎◌, inl, inr, Bool, true, false,
  Option, none, some, [], ◌∷◌, arith, ltb, leb, if◌then◌else◌, any, Bool-cases, Option-cases,
}
use dotagent.Common.Text.{Text, text_eq, text_eq_iff}
use dotagent.Common.Table.{refl_text}
use dotagent.Pool.Slots.{
  Slot, Slots, owns, is_gone, has_slot, forget_slot, count_mine, touch, older, victim, evict_slot,
  reservation, slot_rounds, slot_for,
}

forget-le :
    (slots : Slots) (name key : Text)
    → count_mine (forget_slot slots name key) name ≤ count_mine slots name
unfolding forget_slot count_mine
forget-le [] name key = omega arith
forget-le (s ∷ slots) name key = ground (arith, forget-le slots name key)

forget-lt :
    (slots : Slots) (name key : Text)
    → has_slot slots name key ≡ true
    → count_mine (forget_slot slots name key) name < count_mine slots name
unfolding forget_slot count_mine has_slot
forget-lt [] name key h = cc
forget-lt (s ∷ slots) name key h =
    ground (arith, forget-le slots name key, forget-lt slots name key)

touch-count :
    (slots : Slots) (name key : Text) (now : ℕ)
    → count_mine (touch slots name key now) name ≡ count_mine slots name
unfolding touch count_mine
touch-count [] name key now = refl
touch-count (s ∷ slots) name key now = elim (Bool-cases (owns name key s)) [
  | inl b ↦ simp b (omega (arith, touch-count slots name key now))
  | inr b ↦ simp b (omega (arith, touch-count slots name key now))
]

older-one : (s t : Slot) (rest : Option Slot) → older s rest ≡ t → (s ≡ t) ⊎ (rest ≡ some t)
older-one s t none e = inl e
older-one s t (some u) e = elim (Bool-cases (leb s.last_used u.last_used)) [
  | inl b ↦ inl (sym (simp b refl) ∙ e)
  | inr b ↦ inr (ap (λ (x : Slot). some x) (sym (simp b refl) ∙ e))
]

victim-has :
    (slots : Slots) (name : Text) (v : Slot)
    → victim slots name ≡ some v
    → has_slot slots name v.key ≡ true
unfolding victim has_slot
victim-has [] name v e = cc
victim-has (s ∷ slots) name v e = elim (Bool-cases (text_eq s.agent name)) [
  | inr b ↦ let ih = victim-has slots name v (sym (simp b refl) ∙ e) in ground (arith, ih)
  | inl b ↦ elim (older-one s v (victim slots name) (some_inj (sym (simp b refl) ∙ e))) [
    | inl same ↦ let k = ap (λ (x : Slot). x.key) same in ground (arith, text_eq_iff s.key v.key, k)
    | inr later ↦ let ih = victim-has slots name v later in ground (arith, ih)
  ]
]

victim-none : (slots : Slots) (name : Text) → victim slots name ≡ none → count_mine slots name ≡ 0
unfolding victim count_mine
victim-none [] name e = refl
victim-none (s ∷ slots) name e = ground (arith, victim-none slots name)

evict_slot-lt :
    (slots : Slots) (name : Text)
    → 0 < count_mine slots name
    → count_mine (evict_slot slots name) name < count_mine slots name
unfolding evict_slot
evict_slot-lt slots name p = elim (Option-cases (victim slots name)) [
  | inl n ↦ absurd (omega (arith, victim-none slots name n))
  | inr (v, e) ↦ rw e (forget-lt slots name v.key (victim-has slots name v e))
]

-- what is left once an entry that is gone is dropped
left-le :
    (gone : Bool) (slots : Slots) (name key : Text)
    → count_mine (if gone then forget_slot slots name key else slots) name ≤ count_mine slots name
left-le true slots name key = forget-le slots name key
left-le false slots name key = omega arith

evict_slot-le :
    (slots : Slots) (name : Text) → count_mine (evict_slot slots name) name ≤ count_mine slots name
unfolding evict_slot
evict_slot-le slots name = elim (Option-cases (victim slots name)) [
  | inl n ↦ rw n (omega arith)
  | inr (v, e) ↦ rw e (forget-le slots name v.key)
]

reservation-count :
    (slots : Slots) (name key : Text) (now : ℕ)
    → count_mine (reservation name key now ∷ slots) name ≡ suc (count_mine slots name)
unfolding count_mine
reservation-count slots name key now = rw (refl_text name) (omega arith)

slot_rounds-le :
    (rounds : ℕ) (slots : Slots) (name key : Text) (max now : ℕ)
    → count_mine slots name ≤ max
    → count_mine (slot_rounds rounds slots name key max now) name ≤ max
unfolding slot_rounds
slot_rounds-le zero slots name key max now le = le
slot_rounds-le (suc rounds) slots name key max now le =
    let left = if any (is_gone name key) slots then forget_slot slots name key else slots in
    let fewer = left-le (any (is_gone name key) slots) slots name key in
    elim (Bool-cases (has_slot left name key)) [
      | inl a ↦ rw a (omega (arith, touch-count left name key now, fewer))
      | inr a ↦ elim (Bool-cases (ltb (count_mine left name) max)) [
        | inl b ↦ rw (a, b) (ground (arith, reservation-count left name key now))
        | inr b ↦
            rw (a, b)
              (slot_rounds-le rounds (evict_slot left name) name key max now
                (omega (arith, evict_slot-le left name, fewer)))
      ]
    ]

touch-has :
    (slots : Slots) (name key : Text) (now : ℕ)
    → has_slot slots name key ≡ true
    → has_slot (touch slots name key now) name key ≡ true
unfolding touch has_slot
touch-has [] name key now h = h
touch-has (s ∷ slots) name key now h = elim (Bool-cases (owns name key s)) [
  | inl b ↦ simp (b, b) refl
  | inr b ↦ let ih = touch-has slots name key now in simp (b, b) (ih (simp b at h))
]

reservation-has :
    (slots : Slots) (name key : Text) (now : ℕ)
    → has_slot (reservation name key now ∷ slots) name key ≡ true
unfolding has_slot
reservation-has slots name key now = rw (refl_text name, refl_text key) refl

slot_rounds-has :
    (rounds : ℕ) (slots : Slots) (name key : Text) (max now : ℕ)
    → 0 < max
    → count_mine slots name < rounds
    → has_slot (slot_rounds rounds slots name key max now) name key ≡ true
unfolding slot_rounds
slot_rounds-has zero slots name key max now p enough = absurd (omega arith)
slot_rounds-has (suc rounds) slots name key max now p enough =
    let left = if any (is_gone name key) slots then forget_slot slots name key else slots in
    let fewer = left-le (any (is_gone name key) slots) slots name key in
    elim (Bool-cases (has_slot left name key)) [
      | inl a ↦ rw a (touch-has left name key now a)
      | inr a ↦ elim (Bool-cases (ltb (count_mine left name) max)) [
        | inl b ↦ rw (a, b) (reservation-has left name key now)
        | inr b ↦
            let some_mine : 0 < count_mine left name = ground arith in
            rw (a, b)
              (slot_rounds-has rounds (evict_slot left name) name key max now p
                (omega (arith, evict_slot-lt left name some_mine, fewer)))
      ]
    ]

-- An agent that has at most as many slots as its ceiling, one at least, still has at most as many
-- when a request has been given its slot, and the request has been given one.
pub slot_for-has :
    (slots : Slots) (name key : Text) (max now : ℕ)
    → 0 < max
    → count_mine slots name ≤ max
    → (count_mine (slot_for slots name key max now) name ≤ max)
      × (has_slot (slot_for slots name key max now) name key ≡ true)
unfolding slot_for
slot_for-has slots name key max now p le =
    let rounds = suc (count_mine slots name) in
    (
      slot_rounds-le rounds slots name key max now le,
      slot_rounds-has rounds slots name key max now p (omega arith),
    )
