-- ===== src/Audit/Log/Seams.antt =====
-- The log that an append finds, and the rotation: what the entry that is written next can follow.
use dotagent.Common.{
  ℕ, ◌≡◌, refl, sym, ap, subst, ◌∙◌, inl, inr, Bool, true, false, Option, none, some, List, [],
  append-nil, ◌∷◌, any, Option-cases, some_inj,
}
use dotagent.Common.Text.{Text, text_eq}
use dotagent.Common.Table.{get, insert, remove, get-insert_self}
use dotagent.Audit.Entry.{AuditEvent, audit_log_rotated, AuditEntry, Crates, hash_line}
use dotagent.Audit.Tail.{Tail, read_tail}
use dotagent.Audit.Names.{Directory, is_segment_name, is_stamp, newest_segment, next_segment_name}
use dotagent.Audit.Names.Fresh.{IsStem, next_segment_name-free}
use dotagent.Audit.Log.{
  AuditLog, Now, hash_of, summarize_segment, seam_entry, line_bytes, write_seam, rename, seam_tail,
  rotate, tail_locked, heal,
}
use dotagent.Audit.Log.Render.{render, render-one, last_of, read_tail-render}
use dotagent.Audit.Log.History.{
  History, rotated, Keeps-stem, Keeps-rename, History-Keeps, History-present, trace, trace-Keeps,
  Sound, unwritten, written,
}

-- a seam that was written for a segment
record Opens (crates : Crates) (segment : Text) (last : AuditEntry) (tail : Tail)
    (seam : AuditEntry) : Type 0 where
  count : ℕ
  first_ts : Text
  names_it : seam.event ≡ audit_log_rotated segment count first_ts seam.prev_hash
  chained : seam.prev_hash ≡ hash_line crates (crates.to_string last)
  is_tail : tail.last_line ≡ some (crates.to_string seam)
  ended : tail.ends_with_newline ≡ true

write_seam-Opens :
    (crates : Crates) (log : AuditLog) (ts segment : Text) (dir : Directory) (first : AuditEntry)
    (before : List AuditEntry) (tail : Tail) (dir' : Directory)
    → get dir segment ≡ some (render crates (first ∷ before))
    → write_seam crates log ts segment dir ≡ some (tail, dir')
    → (seam : AuditEntry) × Opens crates segment (last_of first before) tail seam
      × (dir' ≡ insert dir log.stem (line_bytes crates seam))
unfolding write_seam seam_entry
write_seam-Opens crates log ts segment dir first before tail dir' file e =
    let old = render crates (first ∷ before) in
    let last_line = ap (λ (p : Option Text × Bool). p.0) (read_tail-render crates first before) in
    elim (Option-cases (summarize_segment crates old)) [
      | inl failed ↦
          let stopped : write_seam crates log ts segment dir ≡ none = rw (file, failed) refl in
          absurd (cc (sym stopped ∙ e))
      | inr ((count, first_ts), summed) ↦
          let seam =
            seam_entry ts segment count first_ts (hash_of crates (read_tail old).last_line) in
          let opened : write_seam crates log ts segment dir
              ≡ some (
                seam_tail (crates.to_string seam),
                insert dir log.stem (line_bytes crates seam),
              ) =
            rw (file, summed) refl in
          let done = some_inj (sym opened ∙ e) in
          let tail_is = ap (λ (p : Tail × Directory). p.0) done in
          (
            seam,
            record {
              count = count;
              first_ts = first_ts;
              names_it = refl;
              chained = ap (hash_of crates) last_line;
              is_tail = ap (λ (t : Tail). t.last_line) (sym tail_is);
              ended = ap (λ (t : Tail). t.ends_with_newline) (sym tail_is);
            },
            ap (λ (p : Tail × Directory). p.1) (sym done),
          )
    ]

-- what `append` knows when it writes its entry
pub data Ready (crates : Crates) (stem : Text) (tail : Tail) (dir : Directory)
    (said : List AuditEvent) : Type 0 where
  to_start :
      tail.last_line ≡ none
      → tail.ends_with_newline ≡ true
      → get dir stem ≡ none
      → newest_segment stem dir ≡ none
      → said ≡ []
      → Ready crates stem tail dir said
  to_follow :
      {names : List Text} {head : AuditEntry} {es : List AuditEntry}
      → tail.last_line ≡ some (crates.to_string (last_of head es))
      → tail.ends_with_newline ≡ true
      → get dir stem ≡ some (render crates (head ∷ es))
      → (history : History crates stem dir names head es) → trace history ≡ said
      → Ready crates stem tail dir said

pub tail_locked-Ready :
    (crates : Crates) (log : AuditLog) {dir : Directory} {said : List AuditEvent}
    → Sound crates log.stem dir said
    → Ready crates log.stem (tail_locked log dir) dir said
tail_locked-Ready crates log (unwritten none_yet no_segment silent) =
    rw none_yet (to_start refl refl none_yet no_segment silent)
tail_locked-Ready crates log (written {head = head} {es = es} file history told) =
    let end = read_tail-render crates head es in
    rw file (
      to_follow (ap (λ (p : Option Text × Bool). p.0) end)
        (ap (λ (p : Option Text × Bool). p.1) end) file history told)

-- a sound log needs no healing
pub heal-Ready :
    (crates : Crates) (log : AuditLog) (now : Now) {tail : Tail} {dir : Directory}
    {said : List AuditEvent}
    → Ready crates log.stem tail dir said
    → heal crates log now dir tail ≡ some (tail, dir)
unfolding heal
heal-Ready crates log now (to_start line ended file no_segment silent) = rw (line, no_segment) refl
heal-Ready crates log now (to_follow line ended file history told) = rw line refl

-- a seam that was written for a segment of the chain
write_seam-Ready :
    (crates : Crates) (log : AuditLog) (ts segment : Text) {dir : Directory} {names : List Text}
    {first : AuditEntry} {before : List AuditEntry} (tail' : Tail) (dir' : Directory)
    → is_segment_name log.stem segment ≡ true
    → get dir segment ≡ some (render crates (first ∷ before))
    → any (text_eq segment) names ≡ false
    → (old : History crates log.stem dir names first before)
    → write_seam crates log ts segment dir ≡ some (tail', dir')
    → Ready crates log.stem tail' dir' (trace old)
unfolding trace
write_seam-Ready crates log ts segment {dir} {names} {first} {before} tail' dir' seg here apart old
      e =
    let (seam, opens, dir_is) =
      write_seam-Opens crates log ts segment dir first before tail' dir' here e in
    let line = line_bytes crates seam in
    let kept = Keeps-stem log.stem dir line in
    let history =
      rotated {head = seam} {es = []} segment opens.count opens.first_ts opens.names_it
        opens.chained seg (kept segment _ seg here) apart (History-Keeps kept old) tt in
    let file =
      get-insert_self dir log.stem line
      ∙ ap (λ (l : List ℕ). some l) (sym (render-one crates seam)) in
    let told = append-nil (trace (History-Keeps kept old)) ∙ trace-Keeps _ kept old in
    rw dir_is (to_follow {head = seam} {es = []} opens.is_tail opens.ended file history told)

pub rotate-Ready :
    (crates : Crates) (log : AuditLog) (now : Now) {dir : Directory} {names : List Text}
    {head : AuditEntry} {es : List AuditEntry} (tail' : Tail) (dir' : Directory)
    → IsStem log.stem
    → is_stamp now.stamp ≡ true
    → get dir log.stem ≡ some (render crates (head ∷ es))
    → (history : History crates log.stem dir names head es)
    → rotate crates log now dir ≡ some (tail', dir')
    → Ready crates log.stem tail' dir' (trace history)
unfolding rotate rename
rotate-Ready crates log now {dir} {names} {head} {es} tail' dir' stem stamp file history e =
    elim (Option-cases (next_segment_name log.stem now.stamp dir)) [
      | inl taken ↦
          let stopped : rotate crates log now dir ≡ none = rw taken refl in
          absurd (cc (sym stopped ∙ e))
      | inr (segment, name) ↦
          let (free, seg) = next_segment_name-free now.stamp dir segment stem stamp name in
          let old = render crates (head ∷ es) in
          let moved = insert (remove dir log.stem) segment old in
          let seam_written : rotate crates log now dir
              ≡ write_seam crates log now.rotated_ts segment moved =
            rw (name, file) refl in
          let keeps = Keeps-rename log.stem segment dir old free in
          subst (λ (said : List AuditEvent). Ready crates log.stem tail' dir' said)
            (trace-Keeps moved keeps history)
            (write_seam-Ready crates log now.rotated_ts segment tail' dir' seg
              (get-insert_self (remove dir log.stem) segment old)
              (History-present segment history free) (History-Keeps keeps history)
              (sym seam_written ∙ e))
    ]
