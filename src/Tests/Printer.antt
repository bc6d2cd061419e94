-- ===== src/Tests/Printer.antt =====
-- A plain printer of audit entries, for the tests: it meets what the log relies on in the JSON crate.
use dotagent.Common.{
  ℕ, zero, suc, ◌+◌, ◌≤◌, ◌≡◌, refl, ap, ◌∙◌, true, Option, none, some, List, [], ◌∷◌, arith, ◌==◌,
  if◌then◌else◌, All,
}
use dotagent.Common.Text.{Text}
use dotagent.Common.Text.Utf8.{is_scalar}
use dotagent.Audit.Entry.{
  Severity, info, notice, critical, AuditEvent, audit_log_rotated, other, AuditEntry, Crates,
}

-- a number in strokes, a text as its numbers
ones : ℕ → Text → Text
ones zero rest = rest
ones (suc n) rest = b'1' ∷ ones n rest

print_text : Text → Text → Text
unfolding ones
print_text [] rest = b';' ∷ rest
print_text (n ∷ t) rest = ones n (b',' ∷ print_text t rest)

unfoldable pub print_all : List Text → Text
unfolding print_text
print_all [] = []
print_all (t ∷ ts) = print_text t (print_all ts)

abbrev put_first : ℕ → List Text → List Text
put_first n [] = []
put_first n (t ∷ ts) = (n ∷ t) ∷ ts

unfoldable pub scan_texts : ℕ → Text → List Text
scan_texts acc [] = []
scan_texts acc (c ∷ s) =
    let fresh = scan_texts 0 s in
    let more = scan_texts (suc acc) s in
    if c == b',' then put_first acc fresh else (if c == b';' then [] ∷ fresh else more)

scan_texts-ones :
    (n acc : ℕ) (rest : Text)
    → scan_texts acc (ones n (b',' ∷ rest)) ≡ put_first (n + acc) (scan_texts 0 rest)
unfolding scan_texts ones
scan_texts-ones zero acc rest = let e : 0 + acc ≡ acc = omega arith in rw e refl
scan_texts-ones (suc n) acc rest =
    scan_texts-ones n (suc acc) rest
    ∙ (let e : n + suc acc ≡ suc n + acc = omega arith in rw e refl)

scan_texts-print_text : (t rest : Text) → scan_texts 0 (print_text t rest) ≡ t ∷ scan_texts 0 rest
unfolding print_text
scan_texts-print_text [] rest = unfold scan_texts in refl
scan_texts-print_text (n ∷ t) rest =
    let e : n + 0 ≡ n = omega arith in
    scan_texts-ones n 0 (print_text t rest) ∙ rw (e, scan_texts-print_text t rest) refl

scan_texts-print_all : (ts : List Text) → scan_texts 0 (print_all ts) ≡ ts
unfolding print_all
scan_texts-print_all [] = unfold scan_texts in refl
scan_texts-print_all (t ∷ ts) =
    scan_texts-print_text t (print_all ts) ∙ ap (λ (r : List Text). t ∷ r) (scan_texts-print_all ts)

abbrev pub Plain : Text → Type 0
Plain s = All (λ c. (is_scalar c ≡ true) × (32 ≤ c)) s

ones-Plain : (n : ℕ) (rest : Text) → Plain rest → Plain (ones n rest)
unfolding ones
ones-Plain zero rest h = h
ones-Plain (suc n) rest h = ((refl, omega arith), ones-Plain n rest h)

print_text-Plain : (t rest : Text) → Plain rest → Plain (print_text t rest)
unfolding print_text
print_text-Plain [] rest h = ((refl, omega arith), h)
print_text-Plain (n ∷ t) rest h = ones-Plain n _ ((refl, omega arith), print_text-Plain t rest h)

print_all-Plain : (ts : List Text) → Plain (print_all ts)
unfolding print_all
print_all-Plain [] = tt
print_all-Plain (t ∷ ts) = print_text-Plain t (print_all ts) (print_all-Plain ts)

pub All-left : (s : Text) → Plain s → All (λ c. is_scalar c ≡ true) s
All-left [] h = tt
All-left (c ∷ s) h = (h.0.0, All-left s h.1)

pub All-right : (s : Text) → Plain s → All (λ c. 32 ≤ c) s
All-right [] h = tt
All-right (c ∷ s) h = (h.0.1, All-right s h.1)

-- the fields of an entry
abbrev rank : Severity → Text
rank info = []
rank notice = 0 ∷ []
rank critical = 0 ∷ 0 ∷ []

abbrev of_rank : Text → Severity
of_rank [] = info
of_rank (c ∷ []) = notice
of_rank (c ∷ d ∷ s) = critical

abbrev event_fields : AuditEvent → List Text
event_fields (other severity what) = rank severity ∷ what ∷ []
event_fields (audit_log_rotated to count first_ts tail_hash) =
    to ∷ (count ∷ []) ∷ first_ts ∷ tail_hash ∷ []

abbrev to_fields : AuditEntry → List Text
to_fields e = e.ts ∷ rank e.severity ∷ e.prev_hash ∷ event_fields e.event

abbrev event_of : List Text → Option AuditEvent
event_of (severity ∷ what ∷ []) = some (other (of_rank severity) what)
event_of (to ∷ (count ∷ []) ∷ first_ts ∷ tail_hash ∷ []) =
    some (audit_log_rotated to count first_ts tail_hash)
event_of _ = none

abbrev with_event : Text → Text → Text → Option AuditEvent → Option AuditEntry
with_event ts severity prev_hash none = none
with_event ts severity prev_hash (some event) =
    some (record { ts = ts; severity = of_rank severity; event = event; prev_hash = prev_hash })

abbrev of_fields : List Text → Option AuditEntry
of_fields (ts ∷ severity ∷ prev_hash ∷ event) = with_event ts severity prev_hash (event_of event)
of_fields _ = none

of_rank-rank : (s : Severity) → of_rank (rank s) ≡ s
of_rank-rank info = refl
of_rank-rank notice = refl
of_rank-rank critical = refl

event_of-event_fields : (e : AuditEvent) → event_of (event_fields e) ≡ some e
event_of-event_fields (other severity what) = rw (of_rank-rank severity) refl
event_of-event_fields (audit_log_rotated to count first_ts tail_hash) = refl

of_fields-to_fields : (e : AuditEntry) → of_fields (to_fields e) ≡ some e
of_fields-to_fields e = rw (event_of-event_fields e.event, of_rank-rank e.severity) refl

unfoldable pub print : AuditEntry → Text
unfolding print_all
print e = b'{' ∷ print_all (to_fields e)

unfoldable pub parse : Text → Option AuditEntry
parse [] = none
parse (c ∷ s) = of_fields (scan_texts 0 s)

pub parse-print : (e : AuditEntry) → parse (print e) ≡ some e
unfolding parse print
parse-print e = rw (scan_texts-print_all (to_fields e)) (of_fields-to_fields e)

pub print-Plain : (e : AuditEntry) → Plain (print e)
unfolding print
print-Plain e = ((refl, omega arith), print_all-Plain (to_fields e))

pub print-object : (e : AuditEntry) → (rest : Text) × (print e ≡ b'{' ∷ rest)
unfolding print
print-object e = (print_all (to_fields e), refl)

-- with any hash
unfoldable pub crates_with : (List ℕ → List ℕ) → Crates
unfolding print parse scan_texts
crates_with sha256 = record {
  to_string = print;
  from_str = parse;
  sha256 = sha256;
  from_str-to_string = parse-print;
  one_object = print-object;
  to_string_plain = λ e. All-left (print e) (print-Plain e);
  to_string_printable = λ e. All-right (print e) (print-Plain e);
}
