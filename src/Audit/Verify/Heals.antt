-- ===== src/Audit/Verify/Heals.antt =====
-- An append to a log whose live file is gone: the seam that it writes, and what verification says.
use dotagent.Common.{
  ℕ, ◌+◌, ◌<◌, ◌≡◌, refl, sym, ap, ◌∙◌, true, false, none, some, List, [], ◌∷◌, ◌++◌, arith, leb,
}
use dotagent.Common.Text.{Text, byte_len}
use dotagent.Common.Table.{get, insert, get-insert, get-insert_self}
use dotagent.Audit.Entry.{AuditEvent, AuditEntry, Crates, genesis_hash, hash_line}
use dotagent.Audit.Tail.{read_tail}
use dotagent.Audit.Names.{Directory, is_segment_name, newest_segment}
use dotagent.Audit.Names.Fresh.{stem-ne-segment, newest_segment-IsSegment}
use dotagent.Audit.Log.{
  AuditLog, Now, hash_of, summarize_segment, seam_entry, seam_tail, line_bytes, write_seam, heal,
  rotate_if_full, write_entry, entry_after, append,
}
use dotagent.Audit.Log.Render.{render, render-one, render-append}
use dotagent.Audit.Log.History.{Linked}
use dotagent.Audit.Verify.{
  VerifyScope, current_segment, intact_from_genesis, intact_since_rotation, walk_chain,
  verify_chain_status,
}
use dotagent.Audit.Verify.Files.{check_file-render, classify_head-genesis, classify_head-seam}

-- the seam for a segment with the content
abbrev pub seam_for : Crates → Text → Text → List ℕ → ℕ × Text → AuditEntry
seam_for crates ts segment old (count, first_ts) =
    seam_entry ts segment count first_ts (hash_of crates (read_tail old).last_line)

module _ (crates : Crates) (log : AuditLog) (now : Now) (event : AuditEvent) (dir : Directory)
    (segment : Text) (old : List ℕ) (found : ℕ × Text) (gone : get dir log.stem ≡ none)
    (newest : newest_segment log.stem dir ≡ some segment) (here : get dir segment ≡ some old)
    (summed : summarize_segment crates old ≡ some found) where
  abbrev seam : AuditEntry
  seam = seam_for crates now.healed_ts segment old found

  abbrev entry : AuditEntry
  entry = entry_after crates now (seam_tail (crates.to_string seam)) event

  abbrev with_seam : Directory
  with_seam = insert dir log.stem (line_bytes crates seam)

  -- the live file is the seam and the entry
  append-healed :
      byte_len (crates.to_string seam) + 1 < log.max_bytes
      → append crates log now event dir
        ≡ some (entry, insert with_seam log.stem (render crates (seam ∷ entry ∷ [])))
  unfolding append heal rotate_if_full write_entry write_seam
  append-healed room =
      let small : leb log.max_bytes (byte_len (crates.to_string seam) + 1) ≡ false = ground arith in
      let whole : line_bytes crates seam ++ line_bytes crates entry
          ≡ render crates (seam ∷ entry ∷ []) =
        ap (λ (l : List ℕ). l ++ line_bytes crates entry) (sym (render-one crates seam))
        ∙ sym (render-append crates (seam ∷ []) entry) in
      rw
        (
          gone,
          newest,
          here,
          summed,
          small,
          get-insert_self dir log.stem (line_bytes crates seam),
          whole,
        )
        refl

  abbrev after : Directory
  after = insert with_seam log.stem (render crates (seam ∷ entry ∷ []))

  entry-Linked : Linked crates seam (entry ∷ [])
  unfolding entry_after
  entry-Linked = (refl, tt)

  live-after : get after log.stem ≡ some (render crates (seam ∷ entry ∷ []))
  live-after = get-insert_self with_seam log.stem (render crates (seam ∷ entry ∷ []))

  segment-after : is_segment_name log.stem segment ≡ true → get after segment ≡ some old
  segment-after seg =
      let other = stem-ne-segment log.stem segment seg in
      rw
        (
          get-insert with_seam log.stem segment (render crates (seam ∷ entry ∷ [])),
          other,
          get-insert dir log.stem segment (line_bytes crates seam),
          other,
        )
        here

  -- An append that finds no live file but segments says where the history is: the check at boot then
  -- reports that the chain is intact since the newest segment, with the number of its entries, and
  -- that the segment is there. The segment has a line of text, and the seam alone does not fill the
  -- file.
  pub append-since_rotation :
      (line : Text)
      → (read_tail old).last_line ≡ some line
      → byte_len (crates.to_string seam) + 1 < log.max_bytes
      → (dir' : Directory) × (append crates log now event dir ≡ some (entry, dir'))
        × (verify_chain_status crates log current_segment dir'
            ≡ some (intact_since_rotation now.healed_ts segment found.0 true))
  unfolding verify_chain_status walk_chain seam_entry
  append-since_rotation line last room =
      let seg = newest_segment-IsSegment log.stem dir segment newest in
      let chained : seam.prev_hash ≡ hash_line crates line = ap (hash_of crates) last in
      (
        after,
        append-healed room,
        rw
            (
              live-after,
              check_file-render crates log.stem none seam (entry ∷ []) entry-Linked,
              classify_head-seam crates log.stem seam line segment found.0 found.1 refl chained seg,
              segment-after seg,
            )
            refl,
      )

  -- But if the newest segment has no line of text, as when it was emptied, the seam carries the mark
  -- of a first entry, and verification of any scope then takes the log to be whole from its genesis.
  pub append-from_genesis :
      (scope : VerifyScope)
      → (read_tail old).last_line ≡ none
      → byte_len (crates.to_string seam) + 1 < log.max_bytes
      → (dir' : Directory) × (append crates log now event dir ≡ some (entry, dir'))
        × (verify_chain_status crates log scope dir' ≡ some intact_from_genesis)
  unfolding verify_chain_status walk_chain seam_entry
  append-from_genesis scope last room =
      let start : seam.prev_hash ≡ genesis_hash = ap (hash_of crates) last in
      (
        after,
        append-healed room,
        rw
            (
              live-after,
              check_file-render crates log.stem none seam (entry ∷ []) entry-Linked,
              classify_head-genesis log.stem seam start,
            )
            refl,
      )
