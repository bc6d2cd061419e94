-- ===== src/Audit/Verify.antt =====
-- `verify_chain_status` and what it reads, of crates/dotagent-state/src/audit.rs.
pub mod Ends
pub mod Files
pub mod Intact
pub mod Tamper
pub mod Heals
pub mod Replay
use dotagent.Common.{
  ℕ, zero, suc, Bool, true, false, not, ◌&&◌, ◌||◌, Option, none, some, List, [], ◌∷◌, ◌++◌,
  if◌then◌else◌, any, length, is_some,
}
use dotagent.Common.Text.{Text, codes, text_eq}
use dotagent.Common.Text.Lines.{lines}
use dotagent.Common.Text.Utf8.{from_utf8}
use dotagent.Common.Table.{get}
use dotagent.Audit.Entry.{
  AuditEvent, audit_log_rotated, other, AuditEntry, genesis_hash, Crates, hash_line,
}
use dotagent.Audit.Tail.{is_blank, read_tail}
use dotagent.Audit.Names.{Directory, is_segment_name}
use dotagent.Audit.Log.{AuditLog, hash_of}

pub record ChainBreak : Type 0 where
  pub position : ℕ
  pub expected : Text
  pub actual : Text
  pub segment : Option Text

pub data VerifyScope : Type 0 where
  current_segment full : VerifyScope

-- `IntactSinceRotation` has `since_ts`, `segment`, `entries_before` and `segment_present`
pub data ChainStatus : Type 0 where
  intact_from_genesis : ChainStatus
  intact_since_rotation : Text → Text → ℕ → Bool → ChainStatus
  unexplained_truncation : Text → ChainStatus
  broken : ChainBreak → ChainStatus

pub data FileEntries : Type 0 where
  entries : List AuditEntry → FileEntries
  invalid : ℕ → FileEntries

abbrev with_entry : AuditEntry → FileEntries → FileEntries
with_entry e (entries es) = entries (e ∷ es)
with_entry e (invalid position) = invalid position

abbrev on_parsed : Option AuditEntry → ℕ → FileEntries → FileEntries
on_parsed none position later = invalid position
on_parsed (some e) position later = with_entry e later

abbrev on_line : Crates → Option Text → ℕ → FileEntries → FileEntries
on_line crates none position later = invalid position
on_line crates (some line) position later =
    if is_blank line then later else on_parsed (crates.from_str line) position later

-- lines that are blank have no position
abbrev past : Option Text → ℕ → ℕ
past none position = position
past (some line) position = if is_blank line then position else suc position

entries_from : Crates → ℕ → List (List ℕ) → FileEntries
entries_from crates position [] = entries []
entries_from crates position (l ∷ ls) =
    on_line crates (from_utf8 l) position (entries_from crates (past (from_utf8 l) position) ls)

-- a file that is not there has no entries
unfoldable pub read_entries : Crates → Option (List ℕ) → FileEntries
unfolding entries_from
read_entries crates none = entries []
read_entries crates (some file) = entries_from crates 0 (lines file)

-- does the entry follow the line of the hash?
abbrev follows : Option Text → AuditEntry → Bool
follows none e = true
follows (some hash) e = text_eq e.prev_hash hash

abbrev break_at : ℕ → Option Text → AuditEntry → Option Text → Option ChainBreak
break_at i none e segment = none
break_at i (some hash) e segment =
    some (record { position = i; expected = hash; actual = e.prev_hash; segment = segment })

unfoldable pub links_from :
    Crates → ℕ → Option Text → List AuditEntry → Option Text → Option ChainBreak
links_from crates i expected [] segment = none
links_from crates i expected (e ∷ es) segment =
    let later =
      links_from crates (suc i) (some (hash_line crates (crates.to_string e))) es segment in
    if follows expected e then later else break_at i expected e segment

unfoldable pub verify_links : Crates → List AuditEntry → Option Text → Option ChainBreak
unfolding links_from
verify_links crates es segment = links_from crates 0 none es segment

pub record Seam : Type 0 where
  pub segment : Text
  pub entries_before : ℕ
  pub tail_hash : Text

pub data Head : Type 0 where
  genesis : Head
  seam : Seam → Head
  orphan : Text → Head

abbrev seam_of : Text → AuditEntry → AuditEvent → Head
seam_of stem head (other severity what) = orphan head.prev_hash
seam_of stem head (audit_log_rotated to count first_ts tail_hash) =
    if text_eq head.prev_hash tail_hash && is_segment_name stem to
    then seam (record { segment = to; entries_before = count; tail_hash = tail_hash })
    else orphan head.prev_hash

unfoldable pub classify_head : Text → AuditEntry → Head
classify_head stem head =
    if text_eq head.prev_hash genesis_hash then genesis else seam_of stem head head.event

-- what one file of the walk comes to
pub data Walked : Type 0 where
  verdict : ChainStatus → Walked
  back_to : AuditEntry → Seam → Walked

-- a file of the walk: the live one, or the segment of the name
abbrev empty_file : Option Text → ChainStatus
empty_file none = intact_from_genesis
empty_file (some segment) = broken (record {
  position = 0;
  expected = codes "non-empty segment";
  actual = codes "empty file";
  segment = some segment;
})

abbrev pub on_head : AuditEntry → Head → Walked
on_head head genesis = verdict intact_from_genesis
on_head head (orphan hash) = verdict (unexplained_truncation hash)
on_head head (seam s) = back_to head s

abbrev on_links : Text → Option Text → List AuditEntry → Option ChainBreak → Walked
on_links stem label es (some brk) = verdict (broken brk)
on_links stem label [] none = verdict (empty_file label)
on_links stem label (head ∷ es) none = on_head head (classify_head stem head)

abbrev on_entries : Crates → Text → Option Text → FileEntries → Walked
on_entries crates stem label (invalid position) = verdict (
    broken (record {
      position = position;
      expected = codes "a parseable audit entry";
      actual = codes "unparseable line";
      segment = label;
    }))
on_entries crates stem label (entries es) = on_links stem label es (verify_links crates es label)

unfoldable pub check_file : Crates → Text → Option Text → Option (List ℕ) → Walked
unfolding read_entries verify_links classify_head
check_file crates stem label file = on_entries crates stem label (read_entries crates file)

-- what the seam finds: the walk goes on to the segment, or ends
pub data Crossed : Type 0 where
  ended : ChainStatus → Crossed
  go_on : Text → Crossed

abbrev is_current : VerifyScope → Bool
is_current current_segment = true
is_current full = false

abbrev reach_back : AuditEntry → Seam → Bool → Crossed
reach_back head s present = ended (intact_since_rotation head.ts s.segment s.entries_before present)

abbrev pub compare_tail : Crates → Seam → List ℕ → Crossed
compare_tail crates s file =
    let actual = hash_of crates (read_tail file).last_line in
    if text_eq actual s.tail_hash
    then go_on s.segment
    else ended (
        broken (record {
          position = 0;
          expected = s.tail_hash;
          actual = actual;
          segment = some s.segment;
        }))

abbrev cross_to : Crates → VerifyScope → List Text → AuditEntry → Seam → Option (List ℕ) → Crossed
cross_to crates scope seen head s none = reach_back head s false
cross_to crates scope seen head s (some file) =
    if is_current scope
    then reach_back head s true
    else (if any (text_eq s.segment) seen
        then ended (
            broken (record {
              position = 0;
              expected = codes "a segment not already walked";
              actual = s.segment ++ codes " (seam cycle)";
              segment = some s.segment;
            }))
        else compare_tail crates s file)

-- the loop, with fuel, over the segments that have been walked
abbrev pub cross : (Text → Option ChainStatus) → Crossed → Option ChainStatus
cross walk (ended status) = some status
cross walk (go_on segment) = walk segment

abbrev pub walk_on :
    (List Text → Option Text → Option (List ℕ) → Option ChainStatus)
    → Crates
    → VerifyScope
    → Directory
    → List Text
    → Walked
    → Option ChainStatus
walk_on walk crates scope dir seen (verdict status) = some status
walk_on walk crates scope dir seen (back_to head s) =
    cross (λ segment. walk (segment ∷ seen) (some segment) (get dir segment))
      (cross_to crates scope seen head s (get dir s.segment))

unfoldable pub walk_chain :
    ℕ
    → Crates
    → Text
    → VerifyScope
    → Directory
    → List Text
    → Option Text
    → Option (List ℕ)
    → Option ChainStatus
unfolding check_file
walk_chain zero crates stem scope dir seen label file = none
walk_chain (suc fuel) crates stem scope dir seen label file =
    walk_on (walk_chain fuel crates stem scope dir) crates scope dir seen
      (check_file crates stem label file)

-- a round of the loop for each file at most
unfoldable pub verify_chain_status :
    Crates → AuditLog → VerifyScope → Directory → Option ChainStatus
unfolding walk_chain
verify_chain_status crates log scope dir =
    walk_chain (suc (length dir)) crates log.stem scope dir [] none (get dir log.stem)

-- `verify_chain`: yes, or the first mismatch
abbrev mismatch : ChainStatus → Option ChainBreak
mismatch intact_from_genesis = none
mismatch (intact_since_rotation ts segment count present) = none
mismatch (broken brk) = some brk
mismatch (unexplained_truncation hash) =
    some (record { position = 0; expected = genesis_hash; actual = hash; segment = none })

abbrev first_mismatch : Option ChainStatus → Option (Option ChainBreak)
first_mismatch none = none
first_mismatch (some status) = some (mismatch status)

abbrev pub verify_chain : Crates → AuditLog → Directory → Option (Option ChainBreak)
verify_chain crates log dir = first_mismatch (verify_chain_status crates log current_segment dir)
