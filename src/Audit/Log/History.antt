-- ===== src/Audit/Log/History.antt =====
-- What appends keep of the log's files: the live file and the segments that its seams name are the
-- lines of one chain, which starts at the first entry ever written.
use dotagent.Common.{
  ℕ, ◌≡◌, refl, sym, ap, ◌∙◌, inl, inr, true, false, none, some, List, [], append_assoc, ◌∷◌, ◌++◌,
  any, Bool-cases,
}
use dotagent.Common.Text.{Text, text_eq, text_eq_iff, text_eq_comm}
use dotagent.Common.Table.{get, insert, remove, get-insert, get-remove}
use dotagent.Audit.Entry.{
  audit_log_rotated, AuditEvent, AuditEntry, genesis_hash, Crates, hash_line,
}
use dotagent.Audit.Names.{Directory, is_segment_name, newest_segment}
use dotagent.Audit.Names.Fresh.{stem-ne-segment}
use dotagent.Audit.Log.Render.{render, last_of}

-- each entry holds the hash of the line before it
abbrev pub Linked : Crates → AuditEntry → List AuditEntry → Type 0
Linked crates e [] = Unit
Linked crates e (f ∷ es) =
    (f.prev_hash ≡ hash_line crates (crates.to_string e)) × Linked crates f es

pub Linked-append :
    (crates : Crates) (e : AuditEntry) (es : List AuditEntry) (f : AuditEntry)
    → Linked crates e es
    → f.prev_hash ≡ hash_line crates (crates.to_string (last_of e es))
    → Linked crates e (es ++ (f ∷ []))
Linked-append crates e [] f l h = (h, tt)
Linked-append crates e (g ∷ es) f l h = (l.0, Linked-append crates g es f l.1 h)

-- a file's entries, and the segments that stand behind its first one
pub data History (crates : Crates) (stem : Text) (dir : Directory)
    : List Text → AuditEntry → List AuditEntry → Type 0 where
  from_genesis :
      {head : AuditEntry} {es : List AuditEntry}
      → head.prev_hash ≡ genesis_hash
      → Linked crates head es
      → History crates stem dir [] head es
  rotated :
      {names : List Text} {head first : AuditEntry} {es before : List AuditEntry} (segment : Text)
      (count : ℕ) (first_ts : Text)
      → head.event ≡ audit_log_rotated segment count first_ts head.prev_hash
      → head.prev_hash ≡ hash_line crates (crates.to_string (last_of first before))
      → is_segment_name stem segment ≡ true
      → get dir segment ≡ some (render crates (first ∷ before))
      → any (text_eq segment) names ≡ false
      → History crates stem dir names first before
      → Linked crates head es
      → History crates stem dir (segment ∷ names) head es

-- a directory in which the segments are what they were
abbrev pub Keeps : Text → Directory → Directory → Type 0
Keeps stem dir dir' =
    (name : Text) (file : List ℕ)
    → is_segment_name stem name ≡ true
    → get dir name ≡ some file
    → get dir' name ≡ some file

module _ {crates : Crates} {stem : Text} where
  unfoldable pub History-Keeps :
      {dir dir' : Directory} {names : List Text} {head : AuditEntry} {es : List AuditEntry}
      → Keeps stem dir dir'
      → History crates stem dir names head es
      → History crates stem dir' names head es
  History-Keeps keeps (from_genesis g l) = from_genesis g l
  History-Keeps keeps (rotated segment count ts ev prev seg file apart old l) =
      rotated segment count ts ev prev seg (keeps segment _ seg file) apart
        (History-Keeps keeps old) l

  unfoldable pub History-append :
      {dir : Directory} {names : List Text} {head : AuditEntry} {es : List AuditEntry}
      (f : AuditEntry)
      → f.prev_hash ≡ hash_line crates (crates.to_string (last_of head es))
      → History crates stem dir names head es
      → History crates stem dir names head (es ++ (f ∷ []))
  History-append {head = head} {es = es} f h (from_genesis g l) =
      from_genesis g (Linked-append crates head es f l h)
  History-append {head = head} {es = es} f h
        (rotated segment count ts ev prev seg file apart old l) =
      rotated segment count ts ev prev seg file apart old (Linked-append crates head es f l h)

  -- the segments behind a file are there
  pub History-present :
      {dir : Directory} {names : List Text} {head : AuditEntry} {es : List AuditEntry} (name : Text)
      → History crates stem dir names head es
      → get dir name ≡ none
      → any (text_eq name) names ≡ false
  History-present name (from_genesis g l) free = refl
  History-present name (rotated segment count ts ev prev seg file apart old l) free =
      elim (Bool-cases (text_eq name segment)) [
        | inl b ↦
            let same : name ≡ segment = (text_eq_iff name segment).0 b in
            absurd (cc (file, free, same))
        | inr b ↦ rw b (History-present name old free)
      ]

-- the events of entries
abbrev pub events : List AuditEntry → List AuditEvent
events [] = []
events (e ∷ es) = e.event ∷ events es

events-append :
    (es : List AuditEntry) (f : AuditEntry) → events (es ++ (f ∷ [])) ≡ events es ++ (f.event ∷ [])
events-append [] f = refl
events-append (e ∷ es) f = ap (λ (r : List AuditEvent). e.event ∷ r) (events-append es f)

module _ {crates : Crates} {stem : Text} where
  -- all that was appended, from the first entry on: a seam is none of it
  unfoldable pub trace :
      {dir : Directory} {names : List Text} {head : AuditEntry} {es : List AuditEntry}
      → History crates stem dir names head es
      → List AuditEvent
  trace {head = head} {es = es} (from_genesis g l) = events (head ∷ es)
  trace {es = es} (rotated segment count ts ev prev seg file apart old l) = trace old ++ events es

  pub trace-Keeps :
      {dir : Directory} (dir' : Directory) {names : List Text} {head : AuditEntry}
      {es : List AuditEntry} (keeps : Keeps stem dir dir')
      (h : History crates stem dir names head es)
      → trace (History-Keeps keeps h) ≡ trace h
  unfolding trace History-Keeps
  trace-Keeps dir' keeps (from_genesis g l) = refl
  trace-Keeps dir' {es = es} keeps (rotated segment count ts ev prev seg file apart old l) =
      ap (λ (r : List AuditEvent). r ++ events es) (trace-Keeps dir' keeps old)

  pub trace-append :
      {dir : Directory} {names : List Text} {head : AuditEntry} {es : List AuditEntry}
      (f : AuditEntry) (p : f.prev_hash ≡ hash_line crates (crates.to_string (last_of head es)))
      (h : History crates stem dir names head es)
      → trace (History-append f p h) ≡ trace h ++ (f.event ∷ [])
  unfolding trace History-append
  trace-append {head = head} {es = es} f p (from_genesis g l) = events-append (head ∷ es) f
  trace-append {es = es} f p (rotated segment count ts ev prev seg file apart old l) =
      ap (λ (r : List AuditEvent). trace old ++ r) (events-append es f)
      ∙ sym (append_assoc (trace old) (events es) (f.event ∷ []))

-- the state of a log between appends, and the events that it has been told
pub data Sound (crates : Crates) (stem : Text) (dir : Directory) (said : List AuditEvent)
    : Type 0 where
  unwritten :
      get dir stem ≡ none → newest_segment stem dir ≡ none → said ≡ [] → Sound crates stem dir said
  written :
      {names : List Text} {head : AuditEntry} {es : List AuditEntry}
      (file : get dir stem ≡ some (render crates (head ∷ es)))
      (history : History crates stem dir names head es)
      → trace history ≡ said
      → Sound crates stem dir said

pub Keeps-stem :
    (stem : Text) (dir : Directory) (file : List ℕ) → Keeps stem dir (insert dir stem file)
Keeps-stem stem dir file name old seg here =
    let other = stem-ne-segment stem name seg in rw (get-insert dir stem name file, other) here

-- a rename to a name that is free
pub Keeps-rename :
    (stem segment : Text) (dir : Directory) (file : List ℕ)
    → get dir segment ≡ none
    → Keeps stem dir (insert (remove dir stem) segment file)
Keeps-rename stem segment dir file free name old seg here =
    let live : text_eq name stem ≡ false = text_eq_comm name stem ∙ stem-ne-segment stem name seg in
    elim (Bool-cases (text_eq segment name)) [
      | inl b ↦
          let same : segment ≡ name = (text_eq_iff segment name).0 b in
          absurd (cc (free, here, same))
      | inr b ↦
          rw (get-insert (remove dir stem) segment name file, b, get-remove dir stem name, live)
            here
    ]
