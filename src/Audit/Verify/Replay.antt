-- ===== src/Audit/Verify/Replay.antt =====
-- What a log is for: a reader who follows the seams gets back every event that was appended.
use dotagent.Common.{
  ℕ, zero, suc, ◌+◌, ◌<◌, ◌≡◌, refl, sym, ◌∙◌, Option, none, some, List, [], ◌∷◌, ◌++◌, arith,
  length,
}
use dotagent.Common.Text.{Text}
use dotagent.Common.Table.{get}
use dotagent.Audit.Entry.{AuditEvent, AuditEntry, Crates}
use dotagent.Audit.Names.{Directory, newest_segment}
use dotagent.Audit.Names.Fresh.{IsStem}
use dotagent.Audit.Log.{AuditLog}
use dotagent.Audit.Log.Render.{render, last_of}
use dotagent.Audit.Log.History.{
  History, from_genesis, rotated, events, trace, Sound, unwritten, written,
}
use dotagent.Audit.Log.Appends.{Appends, Appends-Sound}
use dotagent.Audit.Verify.{
  FileEntries, entries, invalid, read_entries, Head, genesis, seam, orphan, classify_head,
}
use dotagent.Audit.Verify.Files.{read_entries-render, classify_head-genesis, classify_head-seam}

-- the reader: the events of a file, after those of the segment that its seam names
abbrev by_head :
    (Option (List ℕ) → List AuditEvent)
    → Directory
    → AuditEntry
    → List AuditEntry
    → Head
    → List AuditEvent
by_head earlier dir head es genesis = events (head ∷ es)
by_head earlier dir head es (orphan hash) = []
by_head earlier dir head es (seam s) = earlier (get dir s.segment) ++ events es

abbrev by_entries :
    (Option (List ℕ) → List AuditEvent) → Text → Directory → FileEntries → List AuditEvent
by_entries earlier stem dir (invalid position) = []
by_entries earlier stem dir (entries []) = []
by_entries earlier stem dir (entries (head ∷ es)) =
    by_head earlier dir head es (classify_head stem head)

-- over so many files
unfoldable pub replay : ℕ → Crates → Text → Directory → Option (List ℕ) → List AuditEvent
replay zero crates stem dir file = []
replay (suc files) crates stem dir file =
    by_entries (replay files crates stem dir) stem dir (read_entries crates file)

replay-History :
    {crates : Crates} {stem : Text} {dir : Directory} {names : List Text} {head : AuditEntry}
    {es : List AuditEntry} (files : ℕ)
    → (history : History crates stem dir names head es) → length names < files
    → replay files crates stem dir (some (render crates (head ∷ es))) ≡ trace history
unfolding replay trace
replay-History zero history enough = absurd (omega arith)
replay-History {crates} {stem} {dir} {head = head} {es = es} (suc files) (from_genesis g l) enough =
    rw (read_entries-render crates (head ∷ es), classify_head-genesis stem head g) refl
replay-History {crates} {stem} {dir} {head = head} {es = es} (suc files)
      (rotated {first = first} {before = before} segment count ts ev prev seg file apart old l)
      enough =
    let earlier = replay-History files old (omega arith) in
    rw
      (
        read_entries-render crates (head ∷ es),
        classify_head-seam crates stem head (crates.to_string (last_of first before)) segment count
            ts ev prev seg,
        file,
        earlier,
      )
      refl

replay-Sound :
    (crates : Crates) (stem : Text) {dir : Directory} {said : List AuditEvent}
    → Sound crates stem dir said
    → (files : ℕ) × ((more : ℕ) → replay (files + more) crates stem dir (get dir stem) ≡ said)
unfolding replay read_entries
replay-Sound crates stem {dir} (unwritten none_yet no_segment silent) =
    (1, λ more. let e : 1 + more ≡ suc more = omega arith in rw (e, none_yet) (sym silent))
replay-Sound crates stem {dir} (written {names = names} file history told) = (
  suc (length names),
  λ more. rw file (replay-History (suc (length names) + more) history (omega arith) ∙ told),
)

-- Whatever is appended to a log that starts with neither a file nor segments, however often it is
-- rotated on the way, a reader who follows the seams over enough files gets back just these events,
-- each once and in their order. The log's name and the clock are as for its verification.
pub Appends-replay :
    {crates : Crates} {log : AuditLog} {start dir : Directory} {said : List AuditEvent}
    → IsStem log.stem
    → get start log.stem ≡ none
    → newest_segment log.stem start ≡ none
    → Appends crates log start said dir
    → (files : ℕ) × ((more : ℕ)
        → replay (files + more) crates log.stem dir (get dir log.stem) ≡ said)
Appends-replay {crates} {log} stem none_yet no_segment appends =
    replay-Sound crates log.stem (Appends-Sound stem (unwritten none_yet no_segment refl) appends)
