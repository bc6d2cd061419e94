-- ===== src/Audit/Verify/Ends.antt =====
-- The walk over the segments ends, whatever is on the disk.
use dotagent.Common.{
  ℕ, zero, suc, ◌+◌, ◌≤◌, ◌<◌, ◌≡◌, refl, inl, inr, true, false, Option, none, some, List, [], ◌∷◌,
  arith, any, length, is_some, if◌then◌else◌, Bool-cases, Option-cases,
}
use dotagent.Common.Text.{Text, text_eq, text_eq_iff}
use dotagent.Common.Table.{get}
use dotagent.Audit.Entry.{AuditEntry, Crates}
use dotagent.Audit.Tail.{read_tail}
use dotagent.Audit.Names.{Directory}
use dotagent.Audit.Log.{AuditLog, hash_of}
use dotagent.Audit.Verify.{
  VerifyScope, ChainStatus, Seam, Walked, verdict, back_to, Crossed, ended, go_on, is_current,
  compare_tail, cross_to, check_file, cross, walk_on, walk_chain, verify_chain_status,
}

-- the files that have not been walked
unseen : Directory → List Text → ℕ
unseen [] seen = 0
unseen ((name, file) ∷ dir) seen = (if any (text_eq name) seen then 0 else 1) + unseen dir seen

unseen-le-length : (dir : Directory) (seen : List Text) → unseen dir seen ≤ length dir
unfolding unseen
unseen-le-length [] seen = omega arith
unseen-le-length ((name, file) ∷ dir) seen = ground (arith, unseen-le-length dir seen)

unseen-le :
    (dir : Directory) (name : Text) (seen : List Text) → unseen dir (name ∷ seen) ≤ unseen dir seen
unfolding unseen
unseen-le [] name seen = omega arith
unseen-le ((j, file) ∷ dir) name seen = ground (arith, unseen-le dir name seen)

unseen-lt :
    (dir : Directory) (name : Text) (seen : List Text) (file : List ℕ)
    → get dir name ≡ some file
    → any (text_eq name) seen ≡ false
    → unseen dir (name ∷ seen) < unseen dir seen
unfolding unseen get
unseen-lt [] name seen file here apart = cc
unseen-lt ((j, f) ∷ dir) name seen file here apart = elim (Bool-cases (text_eq j name)) [
  | inl b ↦
      let same : j ≡ name = (text_eq_iff j name).0 b in
      let new : any (text_eq j) seen ≡ false = rw same apart in
      simp (b, new) (omega (arith, unseen-le dir name seen))
  | inr b ↦ simp b (omega (arith, unseen-lt dir name seen file (simp b at here) apart))
]

-- a walk that goes on goes to a file that is there and new
Goes : List Text → Text → Option (List ℕ) → Crossed → Type 0
Goes seen segment file (ended status) = Unit
Goes seen segment file (go_on next) =
    (next ≡ segment) × (any (text_eq segment) seen ≡ false) × (is_some file ≡ true)

compare_tail-Goes :
    (crates : Crates) (seen : List Text) (s : Seam) (file : List ℕ)
    → any (text_eq s.segment) seen ≡ false
    → Goes seen s.segment (some file) (compare_tail crates s file)
unfolding Goes
compare_tail-Goes crates seen s file new =
    elim (Bool-cases (text_eq (hash_of crates (read_tail file).last_line) s.tail_hash)) [
      | inl b ↦ rw b (refl, new, refl)
      | inr b ↦ rw b tt
    ]

cross_to-Goes :
    (crates : Crates) (scope : VerifyScope) (seen : List Text) (head : AuditEntry) (s : Seam)
    (file : Option (List ℕ))
    → Goes seen s.segment file (cross_to crates scope seen head s file)
unfolding Goes
cross_to-Goes crates scope seen head s none = tt
cross_to-Goes crates scope seen head s (some file) = elim (Bool-cases (is_current scope)) [
  | inl a ↦ rw a tt
  | inr a ↦ elim (Bool-cases (any (text_eq s.segment) seen)) [
    | inl b ↦ rw (a, b) tt
    | inr b ↦ rw (a, b) (compare_tail-Goes crates seen s file b)
  ]
]

cross-ends :
    (walk : List Text → Option Text → Option (List ℕ) → Option ChainStatus) (fuel : ℕ)
    (dir : Directory) (seen : List Text) (segment : Text)
    → ((seen' : List Text) (label : Option Text) (file : Option (List ℕ))
        → unseen dir seen' < fuel
        → is_some (walk seen' label file) ≡ true)
    → unseen dir seen < suc fuel
    → (c : Crossed) → Goes seen segment (get dir segment) c
    → is_some (cross (λ s. walk (s ∷ seen) (some s) (get dir s)) c) ≡ true
unfolding Goes
cross-ends walk fuel dir seen segment later h (ended status) goes = refl
cross-ends walk fuel dir seen segment later h (go_on next) (same, new, here) =
    elim (Option-cases (get dir segment)) [
      | inl gone ↦ cc (gone, here)
      | inr (file, found) ↦
          let new' : any (text_eq next) seen ≡ false = rw same new in
          let found' : get dir next ≡ some file = rw same found in
          later (next ∷ seen) (some next) (get dir next)
            (omega (arith, unseen-lt dir next seen file found' new'))
    ]

walk_chain-ends :
    (fuel : ℕ) (crates : Crates) (stem : Text) (scope : VerifyScope) (dir : Directory)
    (seen : List Text) (label : Option Text) (file : Option (List ℕ))
    → unseen dir seen < fuel
    → is_some (walk_chain fuel crates stem scope dir seen label file) ≡ true
unfolding walk_chain
walk_chain-ends zero crates stem scope dir seen label file h = absurd (omega arith)
walk_chain-ends (suc fuel) crates stem scope dir seen label file h =
    walked (λ seen' label' file'. walk_chain-ends fuel crates stem scope dir seen' label' file')
      (check_file crates stem label file)
  where
    walked :
        ((seen' : List Text) (label' : Option Text) (file' : Option (List ℕ))
          → unseen dir seen' < fuel
          → is_some (walk_chain fuel crates stem scope dir seen' label' file') ≡ true)
        → (w : Walked)
        → is_some (walk_on (walk_chain fuel crates stem scope dir) crates scope dir seen w) ≡ true
    walked later (verdict status) = refl
    walked later (back_to head s) =
        cross-ends (walk_chain fuel crates stem scope dir) fuel dir seen s.segment later h
          (cross_to crates scope seen head s (get dir s.segment))
          (cross_to-Goes crates scope seen head s (get dir s.segment))

-- Verification of an audit log ends with a verdict, whatever files are in its directory, seams that
-- name each other in a circle included: it takes no more rounds than there are files, and one.
pub verify_chain_status-ends :
    (crates : Crates) (log : AuditLog) (scope : VerifyScope) (dir : Directory)
    → is_some (verify_chain_status crates log scope dir) ≡ true
unfolding verify_chain_status
verify_chain_status-ends crates log scope dir =
    walk_chain-ends (suc (length dir)) crates log.stem scope dir [] none (get dir log.stem)
      (omega (arith, unseen-le-length dir []))
