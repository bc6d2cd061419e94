-- ===== src/Audit/Verify/Files.antt =====
-- What one file of a chain comes to: its entries, its links and its first entry.
use dotagent.Common.{
  ℕ, suc, ◌≡◌, refl, sym, ◌∙◌, inl, inr, true, Option, none, some, List, [], ◌∷◌, Bool-cases,
}
use dotagent.Common.Text.{Text, text_eq, text_eq_iff}
use dotagent.Common.Text.Lines.{lines}
use dotagent.Common.Text.Utf8.{from_utf8-as_bytes}
use dotagent.Common.Table.{refl_text}
use dotagent.Audit.Entry.{
  audit_log_rotated, AuditEntry, genesis_hash, Crates, hash_line, hash_line-ne-genesis,
}
use dotagent.Audit.Names.{is_segment_name}
use dotagent.Audit.Log.Render.{render, lines-line_bytes, is_blank-to_string}
use dotagent.Audit.Log.History.{Linked}
use dotagent.Audit.Verify.{
  entries, entries_from, read_entries, follows, links_from, verify_links, genesis, seam,
  classify_head, on_head, check_file,
}

-- the entries of a file are read back
entries_from-render :
    (crates : Crates) (position : ℕ) (es : List AuditEntry)
    → entries_from crates position (lines (render crates es)) ≡ entries es
unfolding entries_from render
entries_from-render crates position [] = refl
entries_from-render crates position (e ∷ es) =
    let text = crates.to_string e in
    rw
      (
        lines-line_bytes crates e (render crates es),
        from_utf8-as_bytes text (crates.to_string_plain e),
        is_blank-to_string crates e,
        crates.from_str-to_string e,
        entries_from-render crates (suc position) es,
      )
      refl

pub read_entries-render :
    (crates : Crates) (es : List AuditEntry)
    → read_entries crates (some (render crates es)) ≡ entries es
unfolding read_entries
read_entries-render crates es = entries_from-render crates 0 es

pub links_from-Linked :
    (crates : Crates) (i : ℕ) (expected : Option Text) (e : AuditEntry) (es : List AuditEntry)
    (segment : Option Text)
    → follows expected e ≡ true
    → Linked crates e es
    → links_from crates i expected (e ∷ es) segment ≡ none
unfolding links_from
links_from-Linked crates i expected e [] segment h l = rw h refl
links_from-Linked crates i expected e (f ∷ es) segment h l =
    let hash = hash_line crates (crates.to_string e) in
    rw h (links_from-Linked crates (suc i) (some hash) f es segment (rw l.0 (refl_text hash)) l.1)

-- what a file of one chain comes to, by its first entry
pub check_file-render :
    (crates : Crates) (stem : Text) (label : Option Text) (head : AuditEntry) (es : List AuditEntry)
    → Linked crates head es
    → check_file crates stem label (some (render crates (head ∷ es)))
      ≡ on_head head (classify_head stem head)
unfolding check_file read_entries verify_links
check_file-render crates stem label head es l =
    rw
      (
        entries_from-render crates 0 (head ∷ es),
        links_from-Linked crates 0 none head es label refl l,
      )
      refl

pub classify_head-genesis :
    (stem : Text) (head : AuditEntry)
    → head.prev_hash ≡ genesis_hash
    → classify_head stem head ≡ genesis
unfolding classify_head
classify_head-genesis stem head g =
    let same = (text_eq_iff head.prev_hash genesis_hash).1 g in rw same refl

pub classify_head-seam :
    (crates : Crates) (stem : Text) (head : AuditEntry) (line segment : Text) (count : ℕ)
    (ts : Text)
    → head.event ≡ audit_log_rotated segment count ts head.prev_hash
    → head.prev_hash ≡ hash_line crates line
    → is_segment_name stem segment ≡ true
    → classify_head stem head
      ≡ seam (record { segment = segment; entries_before = count; tail_hash = head.prev_hash })
unfolding classify_head
classify_head-seam crates stem head line segment count ts ev prev seg =
    elim (Bool-cases (text_eq head.prev_hash genesis_hash)) [
      | inl b ↦ absurd (
          hash_line-ne-genesis crates line
            (sym prev ∙ (text_eq_iff head.prev_hash genesis_hash).0 b))
      | inr b ↦ simp (b, ev, refl_text head.prev_hash, seg) refl
    ]
