-- ===== src/Audit/Verify/Tamper.antt =====
-- What verification finds when entries were changed.
use dotagent.Common.{
  ℕ, suc, ◌≡◌, ◌≢◌, refl, sym, ap, ◌∙◌, ◌⊎◌, inl, inr, true, Option, none, some, List, [], ◌∷◌,
  arith, Bool-cases, some_inj, length,
}
use dotagent.Common.Text.{Text, text_eq, text_eq_iff}
use dotagent.Audit.Entry.{AuditEntry, Crates, hash_line}
use dotagent.Audit.Log.Render.{last_of}
use dotagent.Audit.Log.History.{Linked}
use dotagent.Audit.Verify.{follows, links_from, verify_links}

passes :
    (crates : Crates) (i : ℕ) (expected : Option Text) (e : AuditEntry) (es : List AuditEntry)
    (segment : Option Text)
    → links_from crates i expected (e ∷ es) segment ≡ none
    → follows expected e ≡ true
unfolding links_from
passes crates i none e es segment h = refl
passes crates i (some hash) e es segment h = elim (Bool-cases (text_eq e.prev_hash hash)) [
  | inl b ↦ b
  | inr b ↦ absurd (cc (simp b at h))
]

-- what passes is linked
links_from-none :
    (crates : Crates) (i : ℕ) (expected : Option Text) (e : AuditEntry) (es : List AuditEntry)
    (segment : Option Text)
    → links_from crates i expected (e ∷ es) segment ≡ none
    → Linked crates e es
unfolding links_from
links_from-none crates i expected e [] segment h = tt
links_from-none crates i expected e (f ∷ es) segment h =
    let hash = hash_line crates (crates.to_string e) in
    let later : links_from crates (suc i) (some hash) (f ∷ es) segment ≡ none =
      rw (passes crates i expected e (f ∷ es) segment h) at h in
    (
      (text_eq_iff f.prev_hash hash).0 (passes crates (suc i) (some hash) f es segment later),
      links_from-none crates (suc i) (some hash) f es segment later,
    )

-- two lines with one hash
abbrev pub Collision : Crates → Type 0
Collision crates = (s : Text) × (t : Text) × (s ≢ t) × (hash_line crates s ≡ hash_line crates t)

-- entries whose lines are one are one
to_string_inj :
    (crates : Crates) (e f : AuditEntry) → crates.to_string e ≡ crates.to_string f → e ≡ f
to_string_inj crates e f h =
    some_inj
      (sym (crates.from_str-to_string e) ∙ ap crates.from_str h ∙ crates.from_str-to_string f)

same_hash :
    (crates : Crates) (e f : AuditEntry)
    → hash_line crates (crates.to_string e) ≡ hash_line crates (crates.to_string f)
    → (e ≡ f) ⊎ Collision crates
same_hash crates e f h = elim (Bool-cases (text_eq (crates.to_string e) (crates.to_string f))) [
  | inl b ↦
      inl (to_string_inj crates e f ((text_eq_iff (crates.to_string e) (crates.to_string f)).0 b))
  | inr b ↦ inr (
    crates.to_string e,
    crates.to_string f,
    (λ same. cc ((text_eq_iff (crates.to_string e) (crates.to_string f)).1 same, b)),
    h,
  )
]

Linked-same :
    (crates : Crates) (e f : AuditEntry) (es fs : List AuditEntry)
    → Linked crates e es
    → Linked crates f fs
    → length es ≡ length fs
    → last_of e es ≡ last_of f fs
    → (Path (List AuditEntry) (e ∷ es) (f ∷ fs)) ⊎ Collision crates
Linked-same crates e f [] [] l m n same = inl (ap (λ (x : AuditEntry). x ∷ []) same)
Linked-same crates e f [] (g ∷ fs) l m n same = absurd (omega arith)
Linked-same crates e f (g ∷ es) [] l m n same = absurd (omega arith)
Linked-same crates e f (g ∷ es) (h ∷ fs) l m n same =
    elim (Linked-same crates g h es fs l.1 m.1 (omega arith) same) [
      | inr c ↦ inr c
      | inl rest ↦ elim (same_hash crates e f (cc (l.0, m.0, rest))) [
        | inr c ↦ inr c
        | inl first ↦ inl (cc (first, rest))
      ]
    ]

-- Two files of the same number of entries that both pass verification and end with the same entry
-- are the same, entry by entry, unless two different lines are had that have one SHA-256: whoever
-- changes an entry of a log must change the last one too, or is found out.
pub verify_links-tamper :
    (crates : Crates) (e f : AuditEntry) (es fs : List AuditEntry) (label : Option Text)
    → verify_links crates (e ∷ es) label ≡ none
    → verify_links crates (f ∷ fs) label ≡ none
    → length es ≡ length fs
    → last_of e es ≡ last_of f fs
    → (e ∷ es ≡ f ∷ fs) ⊎ Collision crates
unfolding verify_links
verify_links-tamper crates e f es fs label p q n same =
    Linked-same crates e f es fs (links_from-none crates 0 none e es label p)
      (links_from-none crates 0 none f fs label q) n same
