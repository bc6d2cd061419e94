-- ===== src/Tests/Recalling.antt =====
-- Memos of concrete replies.
use dotagent.Common.{◌≤◌, ◌≡◌, refl, [], ◌∷◌}
use dotagent.Common.Text.{codes, byte_len, is_whitespace, trim, trim_end}
use dotagent.Common.Text.Lines.{split_whitespace}
use dotagent.Memos.{
  CapturedMemo, MemoryContext, parse_memo_line, strip_memos, assemble_context_block,
}
use dotagent.Memos.Bounds.{assemble_context_block-le}

abbrev tea : CapturedMemo
tea = record { text = codes "likes tea"; topics = codes "drink" ∷ codes "home" ∷ [] }

abbrev context : MemoryContext
context = record { entries = tea ∷ []; topics = codes "drink" ∷ [] }

assemble_context_block-le_example : byte_len (assemble_context_block context 50) ≤ 50
assemble_context_block-le_example = assemble_context_block-le context 50

-- the vocabulary does not fit
one_fact : assemble_context_block context 50 ≡ codes "## Memory\n- likes tea [drink, home]"
unfolding assemble_context_block split_whitespace is_whitespace trim
one_fact = refl

stripped :
    strip_memos (codes "done\nMEMO: likes tea | topics: drink, home\n") ≡ (codes "done", tea ∷ [])
unfolding strip_memos parse_memo_line trim trim_end
stripped = refl
