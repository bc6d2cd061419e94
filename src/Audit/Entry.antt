-- ===== src/Audit/Entry.antt =====
-- What the audit log is made of: `AuditEntry` and its events, of crates/dotagent-core/src/audit.rs,
-- and `hash_line`, `hex_encode` of crates/dotagent-state/src/audit.rs.
use dotagent.Common.{
  ℕ, ◌+◌, ◌-◌, ◌/◌, ◌%◌, ◌≤◌, ◌≡◌, ◌≢◌, arith, true, Option, some, List, [], ◌∷◌, ltb,
  if◌then◌else◌, All,
}
use dotagent.Common.Text.{Text, codes}
use dotagent.Common.Text.Utf8.{as_bytes, is_scalar}

pub data Severity : Type 0 where
  info notice critical : Severity

-- `AuditLogRotated` has its fields: `rotated_to`, `entries`, `first_ts`, `tail_hash`. The log treats
-- all the other kinds alike: one is its default severity and what it says.
pub data AuditEvent : Type 0 where
  audit_log_rotated : Text → ℕ → Text → Text → AuditEvent
  other : Severity → Text → AuditEvent

pub record AuditEntry : Type 0 where
  pub ts : Text
  pub severity : Severity
  pub event : AuditEvent
  pub prev_hash : Text

abbrev pub genesis_hash : Text
genesis_hash = codes "GENESIS"

-- The crates that the log calls: `serde_json` prints an entry on one line of plain text, from which
-- it is read back, and `sha2` hashes bytes.
pub record Crates : Type 0 where
  pub to_string : AuditEntry → Text
  pub from_str : Text → Option AuditEntry
  pub sha256 : List ℕ → List ℕ
  pub from_str-to_string : (e : AuditEntry) → from_str (to_string e) ≡ some e
  pub one_object : (e : AuditEntry) → (rest : Text) × (to_string e ≡ b'{' ∷ rest)
  pub to_string_plain : (e : AuditEntry) → All (λ c. is_scalar c ≡ true) (to_string e)
  pub to_string_printable : (e : AuditEntry) → All (λ c. 32 ≤ c) (to_string e)

abbrev hex_digit : ℕ → ℕ
hex_digit n = if ltb n 10 then b'0' + n else b'a' + (n - 10)

unfoldable pub hex_encode : List ℕ → Text
hex_encode [] = []
hex_encode (b ∷ bytes) = hex_digit (b / 16) ∷ hex_digit (b % 16) ∷ hex_encode bytes

-- of the crate's sha256
unfoldable pub hash_line : Crates → Text → Text
unfolding hex_encode
hash_line crates s = hex_encode (crates.sha256 (as_bytes s))

-- no line hashes to the mark of the first entry
pub hash_line-ne-genesis : (crates : Crates) (s : Text) → hash_line crates s ≢ genesis_hash
unfolding hash_line
hash_line-ne-genesis crates s = digest (crates.sha256 (as_bytes s))
  where
    digest : (bytes : List ℕ) → hex_encode bytes ≢ genesis_hash
    digest [] e = cc
    digest (b ∷ bytes) e = ground arith
