-- ===== src/Audit/Tail.antt =====
-- The end of an audit log, read backwards in chunks: `read_tail`, `read_back` and `decode_line` of
-- crates/dotagent-state/src/audit.rs. A file is the list of its bytes.
pub mod Forward
use dotagent.Common.{
  ℕ, zero, suc, ◌+◌, ◌-◌, Bool, true, false, Option, none, some, List, [], ◌∷◌, ◌++◌, min, ◌==◌,
  if◌then◌else◌, length, take, drop,
}
use dotagent.Common.Text.{Text, trim}
use dotagent.Common.Text.Lines.{is_empty, rsplit_once}
use dotagent.Common.Text.Utf8.{from_utf8}

abbrev pub tail_chunk : ℕ
tail_chunk = 8192

pub record Tail : Type 0 where
  pub last_line : Option Text
  pub ends_with_newline : Bool
  pub len : ℕ
  pub bytes_read : ℕ

abbrev pub empty_tail : Tail
empty_tail = record { last_line = none; ends_with_newline = true; len = 0; bytes_read = 0 }

-- a carriage return at the end is dropped
unfoldable pub drop_cr : List ℕ → List ℕ
drop_cr [] = []
drop_cr (c ∷ []) = if c == 13 then [] else c ∷ []
drop_cr (c ∷ d ∷ s) = c ∷ drop_cr (d ∷ s)

unfoldable pub decode_line : List ℕ → Option Text
unfolding drop_cr
decode_line bytes = from_utf8 (drop_cr bytes)

-- `line.trim().is_empty()`
unfoldable pub is_blank : Text → Bool
is_blank line = is_empty (trim line)

-- `last() == Some(b'\n')`, of bytes that are there
abbrev pub ends_in_newline : List ℕ → Bool
ends_in_newline [] = true
ends_in_newline (c ∷ []) = c == 10
ends_in_newline (c ∷ d ∷ s) = ends_in_newline (d ∷ s)

-- what the inner loop comes to: a line, or what it leaves pending; and `ends_with_newline`
pub data Scan : Type 0 where
  found : Text → Bool → Scan
  left : List ℕ → Bool → Scan

abbrev judge : (List ℕ → Bool → Scan) → Option Text → List ℕ → Bool → Scan
judge go none before ends = go before false
judge go (some line) before ends =
    let more = go before ends in if is_blank line then more else found line ends

abbrev take_line : (List ℕ → Bool → Scan) → Option (List ℕ × List ℕ) → List ℕ → Bool → Scan
take_line go none pending ends = left pending ends
take_line go (some (before, after)) pending ends = judge go (decode_line after) before ends

-- the inner loop, with fuel: `rposition` finds the last newline, and each round shortens `pending`
lines_back : ℕ → List ℕ → Bool → Scan
unfolding rsplit_once
lines_back zero pending ends = left pending ends
lines_back (suc fuel) pending ends =
    take_line (lines_back fuel) (rsplit_once 10 pending) pending ends

-- where the file is read: everything from `pos` on is off the disk, `pending` is not split yet
pub record Reading : Type 0 where
  pub pos : ℕ
  pub pending : List ℕ
  pub bytes_read : ℕ

-- `seek` and `read_exact` of `want` bytes
abbrev pub read_back : ℕ → List ℕ → Reading → Reading
read_back chunk file r =
    let want = min chunk r.pos in
    let start = r.pos - want in
    record {
      pos = start;
      pending = take want (drop start file) ++ r.pending;
      bytes_read = r.bytes_read + want;
    }

abbrev tail_of : Option Text → Bool → List ℕ → ℕ → Tail
tail_of line ends file bytes_read = record {
  last_line = line;
  ends_with_newline = ends;
  len = length file;
  bytes_read = bytes_read;
}

-- `pending` is the first line of the file
abbrev first_line : Option Text → Bool → List ℕ → ℕ → Tail
first_line none ends file bytes_read = tail_of none false file bytes_read
first_line (some line) ends file bytes_read =
    tail_of (if is_blank line then none else some line) ends file bytes_read

abbrev next_chunk : (Reading → Bool → Tail) → ℕ → List ℕ → Reading → Scan → Tail
next_chunk go chunk file r (found line ends) = tail_of (some line) ends file r.bytes_read
next_chunk go chunk file r (left pending ends) =
    let more = go (read_back chunk file (record r { pending = pending })) ends in
    if r.pos == 0 then first_line (decode_line pending) ends file r.bytes_read else more

-- the outer loop, with fuel: each round moves `pos` to the left
chunks_back : ℕ → ℕ → List ℕ → Reading → Bool → Tail
unfolding lines_back
chunks_back zero chunk file r ends = tail_of none ends file r.bytes_read
chunks_back (suc fuel) chunk file r ends =
    next_chunk (chunks_back fuel chunk file) chunk file r
      (lines_back (suc (length r.pending)) r.pending ends)

abbrev at_end : List ℕ → Reading
at_end file = record { pos = length file; pending = []; bytes_read = 0 }

read_tail_by : ℕ → List ℕ → Tail
unfolding chunks_back
read_tail_by chunk [] = empty_tail
read_tail_by chunk (b ∷ file) =
    let r = read_back chunk (b ∷ file) (at_end (b ∷ file)) in
    chunks_back (suc r.pos) chunk (b ∷ file) r (ends_in_newline r.pending)

unfoldable pub read_tail : List ℕ → Tail
unfolding read_tail_by
read_tail file = read_tail_by tail_chunk file
