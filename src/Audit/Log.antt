-- ===== src/Audit/Log.antt =====
-- `append`, with the rotation and the seam, of crates/dotagent-state/src/audit.rs. The log's lock is
-- held for the whole of it; reads and writes of the disk succeed.
pub mod Render
pub mod History
pub mod Seams
pub mod Appends
use dotagent.Common.{
  ℕ, suc, ◌+◌, Bool, true, false, ◌&&◌, Option, none, some, List, [], ◌∷◌, ◌++◌, leb, if◌then◌else◌,
  is_some, or_option, unwrap_or,
}
use dotagent.Common.Text.{Text, codes, byte_len}
use dotagent.Common.Text.Lines.{lines}
use dotagent.Common.Text.Utf8.{as_bytes, from_utf8}
use dotagent.Common.Table.{get, insert, remove}
use dotagent.Audit.Entry.{
  Severity, info, notice, critical, AuditEvent, audit_log_rotated, other, AuditEntry, genesis_hash,
  Crates, hash_line,
}
use dotagent.Audit.Tail.{Tail, empty_tail, is_blank, read_tail}
use dotagent.Audit.Names.{Directory, newest_segment, next_segment_name}

-- the log: the name of its file, and when it is rotated
pub record AuditLog : Type 0 where
  pub stem : Text
  pub max_bytes : ℕ

-- what `Local::now` says: for the entry, for the seams that are written before it, and in the name of
-- a segment
pub record Now : Type 0 where
  pub ts : Text
  pub healed_ts : Text
  pub rotated_ts : Text
  pub stamp : Text

infixl 5 ◌>>=◌
abbrev pub ◌>>=◌ {ℓ κ} : {A : Type ℓ} {B : Type κ} → Option A → (A → Option B) → Option B
none >>= f = none
some a >>= f = f a

abbrev pub default_severity : AuditEvent → Severity
default_severity (audit_log_rotated to entries first_ts tail_hash) = notice
default_severity (other severity what) = severity

abbrev pub hash_of : Crates → Option Text → Text
hash_of crates none = genesis_hash
hash_of crates (some line) = hash_line crates line

-- `summarize_segment`, on the lines of the file: `none` where one is not UTF-8
abbrev ts_of : Option AuditEntry → Option Text
ts_of none = none
ts_of (some e) = some e.ts

abbrev count_line : Crates → Text → ℕ × Option Text → ℕ × Option Text
count_line crates line (count, first_ts) =
    if is_blank line
    then (count, first_ts)
    else (suc count, or_option (ts_of (crates.from_str line)) first_ts)

summarize_lines : Crates → List (List ℕ) → Option (ℕ × Option Text)
summarize_lines crates [] = some (0, none)
summarize_lines crates (l ∷ ls) = do
  line ← from_utf8 l
  rest ← summarize_lines crates ls
  some (count_line crates line rest)

unfoldable pub summarize_segment : Crates → List ℕ → Option (ℕ × Text)
unfolding summarize_lines
summarize_segment crates file = do
  (count, first_ts) ← summarize_lines crates (lines file)
  some (count, unwrap_or first_ts (codes "unknown"))

unfoldable pub seam_entry : Text → Text → ℕ → Text → Text → AuditEntry
seam_entry ts segment entries first_ts tail_hash = record {
  ts = ts;
  severity = notice;
  event = audit_log_rotated segment entries first_ts tail_hash;
  prev_hash = tail_hash;
}

-- the line of an entry
abbrev pub line_bytes : Crates → AuditEntry → List ℕ
line_bytes crates e = as_bytes (crates.to_string e) ++ (10 ∷ [])

-- the end of a file of which the seam is the only line
abbrev pub seam_tail : Text → Tail
seam_tail line = record {
  last_line = some line;
  ends_with_newline = true;
  len = byte_len line + 1;
  bytes_read = 0;
}

-- `write_seam_locked`: the segment is opened, so it must be there
unfoldable pub write_seam : Crates → AuditLog → Text → Text → Directory → Option (Tail × Directory)
unfolding summarize_segment seam_entry
write_seam crates log ts segment dir = do
  old ← get dir segment
  let tail_hash = hash_of crates (read_tail old).last_line
  (entries, first_ts) ← summarize_segment crates old
  let seam = seam_entry ts segment entries first_ts tail_hash
  some (seam_tail (crates.to_string seam), insert dir log.stem (line_bytes crates seam))

-- `rename`
unfoldable pub rename : Text → Text → Directory → Option Directory
rename from to dir = do file ← get dir from; some (insert (remove dir from) to file)

-- `rotate_locked`
unfoldable pub rotate : Crates → AuditLog → Now → Directory → Option (Tail × Directory)
unfolding rename
rotate crates log now dir = do
  segment ← next_segment_name log.stem now.stamp dir
  moved ← rename log.stem segment dir
  write_seam crates log now.rotated_ts segment moved

-- `tail_locked`
abbrev tail_of_file : Option (List ℕ) → Tail
tail_of_file none = empty_tail
tail_of_file (some file) = read_tail file

abbrev pub tail_locked : AuditLog → Directory → Tail
tail_locked log dir = tail_of_file (get dir log.stem)

-- a log with no line of its own starts from the newest segment there is
abbrev heal_from :
    Crates → AuditLog → Now → Directory → Tail → Option Text → Option (Tail × Directory)
heal_from crates log now dir tail none = some (tail, dir)
heal_from crates log now dir tail (some segment) = write_seam crates log now.healed_ts segment dir

unfoldable pub heal : Crates → AuditLog → Now → Directory → Tail → Option (Tail × Directory)
heal crates log now dir tail =
    if is_some tail.last_line
    then some (tail, dir)
    else heal_from crates log now dir tail (newest_segment log.stem dir)

-- a log that is large enough is rotated
unfoldable pub rotate_if_full :
    Crates → AuditLog → Now → Tail × Directory → Option (Tail × Directory)
unfolding rotate
rotate_if_full crates log now (tail, dir) =
    if leb log.max_bytes tail.len && is_some tail.last_line
    then rotate crates log now dir
    else some (tail, dir)

-- the line is written at the end of the file
unfoldable pub write_entry : Crates → AuditLog → Tail × Directory → AuditEntry → Directory
write_entry crates log (tail, dir) entry =
    let file = unwrap_or (get dir log.stem) [] in
    let apart = if tail.ends_with_newline then file else file ++ (10 ∷ []) in
    insert dir log.stem (apart ++ line_bytes crates entry)

unfoldable pub entry_after : Crates → Now → Tail → AuditEvent → AuditEntry
entry_after crates now tail event = record {
  ts = now.ts;
  severity = default_severity event;
  event = event;
  prev_hash = hash_of crates tail.last_line;
}

unfoldable pub append :
    Crates → AuditLog → Now → AuditEvent → Directory → Option (AuditEntry × Directory)
unfolding heal rotate_if_full write_entry entry_after
append crates log now event dir = do
  healed ← heal crates log now dir (tail_locked log dir)
  ready ← rotate_if_full crates log now healed
  let entry = entry_after crates now ready.0 event
  some (entry, write_entry crates log ready entry)
