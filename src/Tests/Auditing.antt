-- ===== src/Tests/Auditing.antt =====
-- The audit log on concrete directories.
use dotagent.Common.{
  ◌+◌, ℕ, ◌≡◌, refl, ◌⊎◌, true, false, Option, none, some, List, [], ◌∷◌, ltb→lt, is_some, length,
}
use dotagent.Common.Text.{Text, codes, trim}
use dotagent.Common.Text.Utf8.{as_bytes, from_utf8}
use dotagent.Common.Table.{get, insert, remove}
use dotagent.Audit.Entry.{AuditEvent, other, info, AuditEntry, Crates, hash_line}
use dotagent.Audit.Names.{Directory, is_segment_name, newest_segment, next_segment_name}
use dotagent.Audit.Names.Fresh.{IsStem, next_segment_name-free}
use dotagent.Audit.Log.{
  AuditLog, Now, append, write_seam, summarize_segment, seam_entry, seam_tail, entry_after,
  line_bytes,
}
use dotagent.Audit.Tail.{read_tail, decode_line, is_blank, ends_in_newline}
use dotagent.Audit.Tail.Forward.{summary, last_text_line, read_tail-summary}
use dotagent.Audit.Log.Appends.{Appends, unchanged, appended}
use dotagent.Audit.Verify.{
  full, current_segment, verify_chain_status, verify_chain, verify_links, intact_from_genesis,
  intact_since_rotation,
}
use dotagent.Audit.Verify.Ends.{verify_chain_status-ends}
use dotagent.Audit.Verify.Tamper.{Collision, verify_links-tamper}
use dotagent.Audit.Verify.Heals.{seam_for, append-since_rotation, append-from_genesis}
use dotagent.Audit.Verify.Replay.{replay, Appends-replay}
use dotagent.Audit.Verify.Intact.{Appends-intact}
use dotagent.Tests.Printer.{crates_with}

-- a hash that is short
unfoldable crates : Crates
unfolding crates_with
crates = crates_with (λ bytes. 7 ∷ [])

-- rotated at each append
abbrev small_log : AuditLog
small_log = record { stem = codes "audit.log"; max_bytes = 1 }

abbrev small_log-IsStem : IsStem (codes "audit.log")
small_log-IsStem = record { no_slash = refl; no_backslash = refl; no_dots = refl }

abbrev empty_dir : Directory
empty_dir = []

abbrev now : Now
now = record {
  ts = codes "1";
  healed_ts = codes "2";
  rotated_ts = codes "3";
  stamp = codes "20260101T000000";
}

abbrev started : AuditEvent
started = other info (codes "on")

abbrev nothing : AuditEntry × Directory
nothing = (record { ts = []; severity = info; event = started; prev_hash = [] }, [])

abbrev made : Option (AuditEntry × Directory) → AuditEntry × Directory
made none = nothing
made (some r) = r

one_append : AuditEntry × Directory
unfolding crates append get newest_segment
one_append = made (append crates small_log now started [])

two_appends : AuditEntry × Directory
unfolding one_append insert remove read_tail decode_line is_blank as_bytes from_utf8 trim
    next_segment_name write_seam
two_appends = made (append crates small_log now started one_append.1)

one_append_made : append crates small_log now started [] ≡ some (one_append.0, one_append.1)
unfolding one_append
one_append_made = refl

two_appends_made :
    append crates small_log now started one_append.1 ≡ some (two_appends.0, two_appends.1)
unfolding two_appends
two_appends_made = refl

abbrev twice : Appends crates small_log [] (started ∷ started ∷ []) two_appends.1
twice =
    appended now started two_appends.0
      (appended now started one_append.0 (unchanged refl) refl one_append_made refl) refl
      two_appends_made refl

-- the second append rotates the file that the first has written
Appends-intact_example :
    (verify_chain_status crates small_log full two_appends.1 ≡ some intact_from_genesis)
    × (verify_chain crates small_log two_appends.1 ≡ some none)
unfolding get newest_segment
Appends-intact_example = Appends-intact small_log-IsStem refl refl twice

Appends-replay_example :
    (files : ℕ) × ((more : ℕ)
      → replay
          (files + more)
          crates
          (codes "audit.log")
          two_appends.1
          (get two_appends.1 (codes "audit.log"))
        ≡ started ∷ started ∷ [])
unfolding get newest_segment
Appends-replay_example = Appends-replay small_log-IsStem refl refl twice

rotated_once : length two_appends.1 ≡ 2
unfolding two_appends
rotated_once = refl

next_segment_name-free_example :
    (get empty_dir (codes "audit.log.20260101T000000") ≡ none)
    × (is_segment_name (codes "audit.log") (codes "audit.log.20260101T000000") ≡ true)
unfolding next_segment_name get
next_segment_name-free_example =
    next_segment_name-free (codes "20260101T000000") empty_dir (codes "audit.log.20260101T000000")
      small_log-IsStem refl refl

verify_chain_status-ends_example :
    is_some (verify_chain_status crates small_log full two_appends.1) ≡ true
verify_chain_status-ends_example = verify_chain_status-ends crates small_log full two_appends.1

-- a carriage return, a blank line and half a character
abbrev torn : List ℕ
torn = b'o' ∷ b'n' ∷ b'e' ∷ 13 ∷ 10 ∷ 32 ∷ 10 ∷ 226 ∷ []

read_tail-summary_example : summary (read_tail torn) ≡ last_text_line torn (ends_in_newline torn)
read_tail-summary_example = read_tail-summary torn

torn_tail : summary (read_tail torn) ≡ (some (codes "one"), false)
unfolding read_tail decode_line is_blank from_utf8 trim
torn_tail = refl

-- an entry that follows another, and its file
abbrev first_entry : AuditEntry
first_entry = record { ts = []; severity = info; event = started; prev_hash = codes "GENESIS" }

abbrev second_entry : AuditEntry
second_entry = record { ts = []; severity = info; event = started; prev_hash = codes "07" }

verify_links-tamper_example :
    (Path (List AuditEntry) (first_entry ∷ second_entry ∷ []) (first_entry ∷ second_entry ∷ []))
    ⊎ Collision crates
unfolding verify_links crates hash_line
verify_links-tamper_example =
    verify_links-tamper crates first_entry first_entry (second_entry ∷ []) (second_entry ∷ []) none
      refl refl refl refl

-- the live file is gone
abbrev big_log : AuditLog
big_log = record { stem = codes "audit.log"; max_bytes = 33554432 }

abbrev segment : Text
segment = codes "audit.log.20260101T000000"

abbrev left_behind : Directory
left_behind = (segment, line_bytes crates first_entry) ∷ []

abbrev emptied : Directory
emptied = (segment, []) ∷ []

abbrev seam_line : List ℕ → ℕ × Text → Text
seam_line old found = crates.to_string (seam_for crates now.healed_ts segment old found)

abbrev entry_behind : List ℕ → ℕ × Text → AuditEntry
entry_behind old found = entry_after crates now (seam_tail (seam_line old found)) started

append-since_rotation_example :
    (dir' : Directory) × (append crates big_log now started left_behind
      ≡ some (entry_behind (line_bytes crates first_entry) (1, []), dir'))
    × (verify_chain_status crates big_log current_segment dir'
        ≡ some (intact_since_rotation (codes "2") segment 1 true))
unfolding get newest_segment summarize_segment read_tail crates seam_entry as_bytes from_utf8
    is_blank decode_line trim hash_line
append-since_rotation_example =
    append-since_rotation crates big_log now started left_behind segment
      (line_bytes crates first_entry) (1, []) refl refl refl refl (crates.to_string first_entry)
      refl (ltb→lt _ _ refl)

append-from_genesis_example :
    (dir' : Directory) × (append crates big_log now started emptied
      ≡ some (entry_behind [] (0, codes "unknown"), dir'))
    × (verify_chain_status crates big_log full dir' ≡ some intact_from_genesis)
unfolding get newest_segment summarize_segment read_tail crates seam_entry
append-from_genesis_example =
    append-from_genesis crates big_log now started emptied segment [] (0, codes "unknown") refl refl
      refl refl full refl (ltb→lt _ _ refl)
