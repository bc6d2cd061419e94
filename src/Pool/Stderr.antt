-- ===== src/Pool/Stderr.antt =====
-- `StderrRing` of crates/dotagent-runner/src/persistent.rs: the last lines that a live instance
-- has printed to stderr, and those of one request.
pub mod Since
use dotagent.Common.{
  ℕ, suc, ◌+◌, ◌-◌, Bool, List, [], ◌∷◌, ◌++◌, min, ltb, if◌then◌else◌, length, drop,
}
use dotagent.Common.Text.{Text}
use dotagent.Common.Text.Lines.{join_lines}

abbrev pub stderr_ring_lines : ℕ
stderr_ring_lines = 500

pub record StderrRing : Type 0 where
  pub lines : List Text
  pub total : ℕ

abbrev pub empty_ring : StderrRing
empty_ring = record { lines = []; total = 0 }

-- `pop_front` while there are too many
pop_excess : List Text → List Text
pop_excess [] = []
pop_excess (l ∷ ls) =
    let popped = pop_excess ls in if ltb stderr_ring_lines (suc (length ls)) then popped else l ∷ ls

unfoldable pub push : StderrRing → Text → StderrRing
unfolding pop_excess
push ring line = record { lines = pop_excess (ring.lines ++ line ∷ []); total = ring.total + 1 }

unfoldable pub since : StderrRing → ℕ → Text
since ring mark =
    let produced = ring.total - mark in
    let take = min produced (length ring.lines) in
    join_lines (drop (length ring.lines - take) ring.lines)
