-- ===== src/Audit/Log/Appends.antt =====
-- Every append keeps the log sound, the rotation and the seam that it may write included.
use dotagent.Common.{
  ◌≡◌, refl, sym, ap, subst, ◌∙◌, inl, inr, true, none, some, List, [], ◌∷◌, ◌++◌, arith, is_some,
  Bool-cases, Option-cases, some_inj, leb, ◌&&◌,
}
use dotagent.Common.Table.{get, get-insert_self}
use dotagent.Audit.Entry.{AuditEvent, AuditEntry, Crates}
use dotagent.Audit.Tail.{Tail}
use dotagent.Audit.Names.{Directory, is_stamp}
use dotagent.Audit.Names.Fresh.{IsStem}
use dotagent.Audit.Log.{
  AuditLog, Now, hash_of, line_bytes, rotate, tail_locked, rotate_if_full, write_entry, entry_after,
  append,
}
use dotagent.Audit.Log.Render.{render, render-one, render-append}
use dotagent.Audit.Log.History.{
  from_genesis, Keeps, Keeps-stem, History-Keeps, History-append, trace, trace-Keeps, trace-append,
  Sound, written,
}
use dotagent.Audit.Log.Seams.{
  Ready, to_start, to_follow, tail_locked-Ready, heal-Ready, rotate-Ready,
}

rotate_if_full-Ready :
    (crates : Crates) (log : AuditLog) (now : Now) {tail : Tail} {dir : Directory}
    {said : List AuditEvent} (tail' : Tail) (dir' : Directory)
    → IsStem log.stem
    → is_stamp now.stamp ≡ true
    → Ready crates log.stem tail dir said
    → rotate_if_full crates log now (tail, dir) ≡ some (tail', dir')
    → Ready crates log.stem tail' dir' said
unfolding rotate_if_full
rotate_if_full-Ready crates log now {tail} {dir} {said} tail' dir' stem stamp ready e =
    elim (Bool-cases (leb log.max_bytes tail.len && is_some tail.last_line)) [
      | inr small ↦
          let unchanged : rotate_if_full crates log now (tail, dir) ≡ some (tail, dir) =
            simp small refl in
          let same = some_inj (sym unchanged ∙ e) in
          subst (λ (p : Tail × Directory). Ready crates log.stem p.0 p.1 said) same ready
      | inl full ↦
          let begun : rotate_if_full crates log now (tail, dir) ≡ rotate crates log now dir =
            simp full refl in
          rotated_ready ready full (sym begun ∙ e)
    ]
  where
    rotated_ready :
        Ready crates log.stem tail dir said
        → (leb log.max_bytes tail.len && is_some tail.last_line) ≡ true
        → rotate crates log now dir ≡ some (tail', dir')
        → Ready crates log.stem tail' dir' said
    rotated_ready (to_start line ended file no_segment silent) full e =
        absurd (ground (arith, line, full))
    rotated_ready (to_follow line ended file history told) full e =
        subst (λ (all : List AuditEvent). Ready crates log.stem tail' dir' all) told
          (rotate-Ready crates log now tail' dir' stem stamp file history e)

-- the entry is written
write_entry-Sound :
    (crates : Crates) (log : AuditLog) (now : Now) (event : AuditEvent) (tail : Tail)
    (dir : Directory) (said : List AuditEvent)
    → Ready crates log.stem tail dir said
    → Sound crates log.stem
        (write_entry crates log (tail, dir) (entry_after crates now tail event))
        (said ++ (event ∷ []))
unfolding write_entry entry_after trace
write_entry-Sound crates log now event tail dir said (to_start line ended file no_segment silent) =
    let entry = entry_after crates now tail event in
    let here : get (write_entry crates log (tail, dir) entry) log.stem
        ≡ some (render crates (entry ∷ [])) =
      rw
        (
          ended,
          file,
          get-insert_self dir log.stem (line_bytes crates entry),
          render-one crates entry,
        )
        refl in
    written here (from_genesis (ap (hash_of crates) line) tt) (rw silent refl)
write_entry-Sound crates log now event tail dir said
      (to_follow {head = head} {es = es} line ended file history told) =
    let entry = entry_after crates now tail event in
    let grown = render crates (head ∷ es) ++ line_bytes crates entry in
    let here : get (write_entry crates log (tail, dir) entry) log.stem
        ≡ some (render crates (head ∷ es ++ (entry ∷ []))) =
      rw (ended, file, get-insert_self dir log.stem grown, render-append crates (head ∷ es) entry)
        refl in
    let kept : Keeps log.stem dir (write_entry crates log (tail, dir) entry) =
      Keeps-stem log.stem dir _ in
    let chained = ap (hash_of crates) line in
    let longer = History-append entry chained history in
    written here (History-Keeps kept longer) (
      trace-Keeps _ kept longer
      ∙ trace-append entry chained history
      ∙ ap (λ (r : List AuditEvent). r ++ (event ∷ [])) told)

-- an append keeps the log sound
pub append-Sound :
    (crates : Crates) (log : AuditLog) (now : Now) (event : AuditEvent) (dir : Directory)
    (entry : AuditEntry) (dir' : Directory) (said : List AuditEvent)
    → IsStem log.stem
    → is_stamp now.stamp ≡ true
    → Sound crates log.stem dir said
    → append crates log now event dir ≡ some (entry, dir')
    → Sound crates log.stem dir' (said ++ (event ∷ []))
unfolding append
append-Sound crates log now event dir entry dir' said stem stamp sound e =
    let ready = tail_locked-Ready crates log sound in
    let healed = heal-Ready crates log now ready in
    elim (Option-cases (rotate_if_full crates log now (tail_locked log dir, dir))) [
      | inl stuck ↦
          let stopped : append crates log now event dir ≡ none = rw (healed, stuck) refl in
          absurd (cc (sym stopped ∙ e))
      | inr ((tail, at_hand), rotated_to) ↦
          let ready' =
            rotate_if_full-Ready crates log now tail at_hand stem stamp ready rotated_to in
          let next = entry_after crates now tail event in
          let done : append crates log now event dir
              ≡ some (next, write_entry crates log (tail, at_hand) next) =
            rw (healed, rotated_to) refl in
          let same = ap (λ (p : AuditEntry × Directory). p.1) (some_inj (sym done ∙ e)) in
          subst (λ (d : Directory). Sound crates log.stem d (said ++ (event ∷ []))) same
            (write_entry-Sound crates log now event tail at_hand said ready')
    ]

-- a directory is had from another by appends of the events, rotations included
pub data Appends (crates : Crates) (log : AuditLog) (start : Directory)
    : List AuditEvent → Directory → Type 0 where
  unchanged : {said : List AuditEvent} → said ≡ [] → Appends crates log start said start
  appended :
      {dir dir' : Directory} {said said' : List AuditEvent} (now : Now) (event : AuditEvent)
      (entry : AuditEntry)
      → Appends crates log start said dir
      → is_stamp now.stamp ≡ true
      → append crates log now event dir ≡ some (entry, dir')
      → said' ≡ said ++ (event ∷ [])
      → Appends crates log start said' dir'

pub Appends-Sound :
    {crates : Crates} {log : AuditLog} {start dir : Directory} {said : List AuditEvent}
    → IsStem log.stem
    → Sound crates log.stem start []
    → Appends crates log start said dir
    → Sound crates log.stem dir said
Appends-Sound {crates} {log} {start} stem sound (unchanged none_said) =
    subst (λ (s : List AuditEvent). Sound crates log.stem start s) (sym none_said) sound
Appends-Sound {crates} {log} {start} {dir} stem sound
      (appended now event entry before stamp e more) =
    subst (λ (s : List AuditEvent). Sound crates log.stem dir s) (sym more)
      (append-Sound crates log now event _ entry dir _ stem stamp (Appends-Sound stem sound before)
        e)
