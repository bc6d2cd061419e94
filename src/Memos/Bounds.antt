-- ===== src/Memos/Bounds.antt =====
-- The block keeps its cap.
use dotagent.Common.{
  ℕ, ◌+◌, ◌≤◌, ◌≡◌, refl, ap, ◌⊎◌, inl, inr, Option, none, some, List, [], ◌∷◌, ◌++◌, ltb, leb,
  arith, Bool-cases, leb→le,
}
use dotagent.Common.Text.{Text, codes, byte_len, byte_len-append}
use dotagent.Common.Text.Lines.{join_lines, is_empty}
use dotagent.Memos.{
  CapturedMemo, MemoryContext, header, bullet_of, collapse, render_topics, take_bullets,
  with_vocabulary, close_block, assemble_context_block,
}

-- the bytes of the bullets, each with its line end
abbrev bullets_len : List Text → ℕ
bullets_len [] = 0
bullets_len (b ∷ bs) = 1 + byte_len b + bullets_len bs

join_lines-len :
    (b : Text) (bs : List Text) → 1 + byte_len (join_lines (b ∷ bs)) ≡ bullets_len (b ∷ bs)
join_lines-len b [] = omega arith
join_lines-len b (c ∷ bs) =
    omega (arith, byte_len-append b (10 ∷ join_lines (c ∷ bs)), join_lines-len c bs)

-- `total` counts what was taken
take_bullets-total :
    (entries : List CapturedMemo) (total max_bytes : ℕ)
    → (take_bullets entries total max_bytes).1
      ≡ total + bullets_len (take_bullets entries total max_bytes).0
unfolding take_bullets
take_bullets-total [] total max_bytes = omega arith
take_bullets-total (entry ∷ entries) total max_bytes =
    let bullet = bullet_of (collapse entry.text) (render_topics entry.topics) in
    elim (Bool-cases (is_empty (collapse entry.text))) [
      | inl a ↦ rw a (take_bullets-total entries total max_bytes)
      | inr a ↦ elim (Bool-cases (ltb max_bytes (total + 1 + byte_len bullet))) [
        | inl b ↦ rw (a, b) (omega arith)
        | inr b ↦
            rw (a, b)
              (omega (arith, take_bullets-total entries (total + 1 + byte_len bullet) max_bytes))
      ]
    ]

-- and keeps the cap, if anything was taken
take_bullets-le :
    (entries : List CapturedMemo) (total max_bytes : ℕ)
    → ((take_bullets entries total max_bytes).0 ≡ [])
      ⊎ ((take_bullets entries total max_bytes).1 ≤ max_bytes)
unfolding take_bullets
take_bullets-le [] total max_bytes = inl refl
take_bullets-le (entry ∷ entries) total max_bytes =
    let bullet = bullet_of (collapse entry.text) (render_topics entry.topics) in
    elim (Bool-cases (is_empty (collapse entry.text))) [
      | inl a ↦ rw a (take_bullets-le entries total max_bytes)
      | inr a ↦ elim (Bool-cases (ltb max_bytes (total + 1 + byte_len bullet))) [
        | inl b ↦ rw (a, b) (inl refl)
        | inr b ↦
            let counted = take_bullets-total entries (total + 1 + byte_len bullet) max_bytes in
            elim (take_bullets-le entries (total + 1 + byte_len bullet) max_bytes) [
              | inr le ↦ rw (a, b) (inr le)
              | inl none_left ↦
                  let nothing = ap (λ bs. bullets_len bs) none_left in
                  rw (a, b) (inr (ground (arith, counted, nothing)))
            ]
      ]
    ]

with_vocabulary-le :
    (block : Text) (topics : Option Text) (total max_bytes : ℕ)
    → byte_len block ≡ total
    → total ≤ max_bytes
    → byte_len (with_vocabulary block topics total max_bytes) ≤ max_bytes
with_vocabulary-le block none total max_bytes size le = omega arith
with_vocabulary-le block (some topics) total max_bytes size le =
    let line = codes "Topics in use: " ++ topics in
    let outer = byte_len-append (block ++ codes "\n\n") line in
    let inner = byte_len-append block (codes "\n\n") in
    elim (Bool-cases (leb (total + 2 + byte_len line) max_bytes)) [
      | inl b ↦
          let fits = leb→le (total + 2 + byte_len line) max_bytes b in
          let whole : byte_len (block ++ codes "\n\n" ++ line) ≤ max_bytes =
            omega (arith, outer, inner, fits, size) in
          rw b whole
      | inr b ↦ let alone : byte_len block ≤ max_bytes = omega (arith, size, le) in rw b alone
    ]

close_block-le :
    (bullets : List Text) (total : ℕ) (topics : Option Text) (max_bytes : ℕ)
    → total ≡ byte_len header + bullets_len bullets
    → (bullets ≡ []) ⊎ (total ≤ max_bytes)
    → byte_len (close_block bullets total topics max_bytes) ≤ max_bytes
close_block-le [] total topics max_bytes counted h = omega arith
close_block-le (b ∷ bs) total topics max_bytes counted (inl e) = cc
close_block-le (b ∷ bs) total topics max_bytes counted (inr le) =
    let body = join_lines (b ∷ bs) in
    let size : byte_len (header ++ codes "\n" ++ body) ≡ total =
      omega (arith, byte_len-append header (codes "\n" ++ body), join_lines-len b bs, counted) in
    with_vocabulary-le (header ++ codes "\n" ++ body) topics total max_bytes size le

-- The block that goes before a run has at most `max_bytes` bytes, its header and the vocabulary of
-- topics included, whatever the facts.
pub assemble_context_block-le :
    (context : MemoryContext) (max_bytes : ℕ)
    → byte_len (assemble_context_block context max_bytes) ≤ max_bytes
unfolding assemble_context_block
assemble_context_block-le context max_bytes =
    let taken = take_bullets context.entries (byte_len header) max_bytes in
    close_block-le taken.0 taken.1 (render_topics context.topics) max_bytes
      (take_bullets-total context.entries (byte_len header) max_bytes)
      (take_bullets-le context.entries (byte_len header) max_bytes)
