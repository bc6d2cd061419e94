-- ===== src/Audit/Verify/Intact.antt =====
-- A log that only appends have touched is verified back to its first entry.
use dotagent.Common.{
  ℕ, zero, suc, ◌≡◌, refl, sym, ap, ◌∙◌, inl, inr, Bool, false, Option, none, some, List, [], ◌∷◌,
  arith, any, Option-cases, some_inj, length, All,
}
use dotagent.Common.Text.{Text, text_eq, text_eq_comm}
use dotagent.Common.Table.{get, refl_text}
use dotagent.Audit.Entry.{AuditEvent, AuditEntry, Crates, hash_line}
use dotagent.Audit.Names.{Directory, newest_segment}
use dotagent.Audit.Names.Fresh.{IsStem}
use dotagent.Audit.Log.{AuditLog, hash_of}
use dotagent.Audit.Log.Render.{render, last_of, read_tail-render}
use dotagent.Audit.Log.History.{History, from_genesis, rotated, Sound, unwritten, written}
use dotagent.Audit.Log.Appends.{Appends, Appends-Sound}
use dotagent.Audit.Verify.{
  full, ChainStatus, intact_from_genesis, read_entries, links_from, verify_links, Seam, check_file,
  go_on, cross_to, walk_chain, verify_chain_status, verify_chain,
}
use dotagent.Audit.Verify.Ends.{verify_chain_status-ends}
use dotagent.Audit.Verify.Files.{check_file-render, classify_head-genesis, classify_head-seam}

-- the seam of a chain is crossed
cross_to-History :
    (crates : Crates) (seen : List Text) (head first : AuditEntry) (before : List AuditEntry)
    (s : Seam)
    → s.tail_hash ≡ hash_line crates (crates.to_string (last_of first before))
    → any (text_eq s.segment) seen ≡ false
    → cross_to crates full seen head s (some (render crates (first ∷ before))) ≡ go_on s.segment
cross_to-History crates seen head first before s prev new =
    let end =
      ap (λ (p : Option Text × Bool). hash_of crates p.0) (read_tail-render crates first before) in
    rw (new, end, prev, refl_text (hash_line crates (crates.to_string (last_of first before)))) refl

-- names that have not been walked
abbrev Apart : List Text → List Text → Type 0
Apart names seen = All (λ name. any (text_eq name) seen ≡ false) names

Apart-cons :
    (names seen : List Text) (segment : Text)
    → any (text_eq segment) names ≡ false
    → Apart names seen
    → Apart names (segment ∷ seen)
Apart-cons [] seen segment new apart = tt
Apart-cons (name ∷ names) seen segment new apart = (
  ground (arith, text_eq_comm name segment, apart.0, new),
  Apart-cons names seen segment (ground (arith, new)) apart.1,
)

walk_chain-History :
    {crates : Crates} {stem : Text} {dir : Directory} {names : List Text} {head : AuditEntry}
    {es : List AuditEntry} (fuel : ℕ) (seen : List Text) (label : Option Text)
    (status : ChainStatus)
    → History crates stem dir names head es
    → Apart names seen
    → walk_chain fuel crates stem full dir seen label (some (render crates (head ∷ es)))
      ≡ some status
    → status ≡ intact_from_genesis
unfolding walk_chain
walk_chain-History zero seen label status history apart e = cc
walk_chain-History {crates} {stem} {dir} {head = head} {es = es} (suc fuel) seen label status
      (from_genesis g l) apart e =
    let whole : walk_chain (suc fuel) crates stem full dir seen label
          (some (render crates (head ∷ es)))
        ≡ some intact_from_genesis =
      rw (check_file-render crates stem label head es l, classify_head-genesis stem head g) refl in
    some_inj (sym e ∙ whole)
walk_chain-History {crates} {stem} {dir} {head = head} {es = es} (suc fuel) seen label status
      (rotated {first = first} {before = before} segment count ts ev prev seg file new old l) apart
      e =
    let s : Seam = record {
      segment = segment;
      entries_before = count;
      tail_hash = head.prev_hash;
    } in
    let whole : walk_chain (suc fuel) crates stem full dir seen label
          (some (render crates (head ∷ es)))
        ≡ walk_chain fuel crates stem full dir (segment ∷ seen) (some segment)
            (some (render crates (first ∷ before))) =
      rw
        (
          check_file-render crates stem label head es l,
          classify_head-seam crates stem head (crates.to_string (last_of first before)) segment
              count ts ev prev seg,
          file,
          cross_to-History crates seen head first before s prev apart.0,
          file,
        )
        refl in
    walk_chain-History fuel (segment ∷ seen) (some segment) status old
      (Apart-cons _ seen segment new apart.1) (sym whole ∙ e)

Apart-nil : (names : List Text) → Apart names []
Apart-nil [] = tt
Apart-nil (name ∷ names) = (refl, Apart-nil names)

full_status :
    (crates : Crates) (log : AuditLog) {dir : Directory} {said : List AuditEvent}
    → Sound crates log.stem dir said
    → verify_chain_status crates log full dir ≡ some intact_from_genesis
unfolding verify_chain_status walk_chain check_file read_entries verify_links links_from
full_status crates log (unwritten none_yet no_segment silent) = rw none_yet refl
full_status crates log {dir} (written {head = head} {es = es} file history told) =
    elim (Option-cases (verify_chain_status crates log full dir)) [
      | inl stuck ↦ absurd (cc (verify_chain_status-ends crates log full dir, stuck))
      | inr (status, e) ↦
          let walked = rw file at e in
          e
          ∙ ap (λ (s : ChainStatus). some s)
              (walk_chain-History (suc (length dir)) [] none status history (Apart-nil _) walked)
    ]

boot_status :
    (crates : Crates) (log : AuditLog) {dir : Directory} {said : List AuditEvent}
    → Sound crates log.stem dir said
    → verify_chain crates log dir ≡ some none
unfolding verify_chain_status walk_chain check_file read_entries verify_links links_from
boot_status crates log (unwritten none_yet no_segment silent) = rw none_yet refl
boot_status crates log {dir} (written {head = head} {es = es} file (from_genesis g l) told) =
    rw
      (
        file,
        check_file-render crates log.stem none head es l,
        classify_head-genesis log.stem head g,
      )
      refl
boot_status crates log {dir}
      (written {head = head} {es = es} file
        (rotated {first = first} {before = before} segment count ts ev prev seg there new old l)
        told) =
    rw
      (
        file,
        check_file-render crates log.stem none head es l,
        classify_head-seam crates log.stem head (crates.to_string (last_of first before)) segment
            count ts ev prev seg,
        there,
      )
      refl

-- Whatever is appended to a log that starts with neither a file nor segments, and however often it
-- is rotated on the way, its whole chain verifies back to the first entry ever written, and the
-- check at boot, of the live file alone, finds no break. The log's name has no separators or dots
-- that a segment's name may not have, and the clock prints time stamps of its format.
pub Appends-intact :
    {crates : Crates} {log : AuditLog} {start dir : Directory} {said : List AuditEvent}
    → IsStem log.stem
    → get start log.stem ≡ none
    → newest_segment log.stem start ≡ none
    → Appends crates log start said dir
    → (verify_chain_status crates log full dir ≡ some intact_from_genesis)
      × (verify_chain crates log dir ≡ some none)
Appends-intact {crates} {log} stem none_yet no_segment appends =
    let sound = Appends-Sound stem (unwritten none_yet no_segment refl) appends in
    (full_status crates log sound, boot_status crates log sound)
