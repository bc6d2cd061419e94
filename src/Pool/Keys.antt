-- ===== src/Pool/Keys.antt =====
-- Which instance answers a request: `resolve_key` of crates/dotagent-runner/src/persistent.rs. The
-- default hasher of a text, a number of 64 bits, and the JSON of a payload are arguments.
pub mod Plain
use dotagent.Common.{
  ℕ, zero, suc, ◌+◌, ◌-◌, ◌/◌, ◌%◌, Bool, true, false, not, ◌&&◌, ◌||◌, Option, none, some, List,
  [], ◌∷◌, ◌++◌, ltb, ◌==◌, if◌then◌else◌, retain, length,
}
use dotagent.Common.Text.{Text, codes, text_eq, byte_len, is_ascii_alphanumeric}
use dotagent.Common.Text.Lines.{is_empty}

abbrev pub max_key_len : ℕ
max_key_len = 64

abbrev pub default_instance_key : Text
default_instance_key = codes "default"

abbrev pub scheduled_scope : Text
scheduled_scope = codes "scheduled"

-- the characters that are kept
unfoldable pub is_key_char : ℕ → Bool
unfolding is_ascii_alphanumeric
is_key_char c = is_ascii_alphanumeric c || c == b'_' || c == b'-'

-- `{:016x}`: sixteen digits, the last ones of the number in front of `rest`
abbrev pub hex_digit : ℕ → ℕ
hex_digit n = if ltb n 10 then b'0' + n else b'a' + (n - 10)

unfoldable pub hex_digits : ℕ → ℕ → Text → Text
hex_digits zero n rest = rest
hex_digits (suc more) n rest = hex_digits more (n / 16) (hex_digit (n % 16) ∷ rest)

abbrev pub digest_key : (Text → ℕ) → Text → Text
digest_key hash raw = b'k' ∷ hex_digits 16 (hash raw) []

unfoldable pub sanitize_key : (Text → ℕ) → Text → Text
sanitize_key hash raw =
    let clean = retain is_key_char raw in
    if is_empty clean || not (byte_len clean == byte_len raw) || ltb max_key_len (byte_len clean)
    then digest_key hash raw
    else clean

-- the environment that a trigger adds to a run
abbrev pub Env : Type 0
Env = List (Text × Text)

abbrev pub env_var : Env → Text → Option Text
env_var [] name = none
env_var ((k, v) ∷ env) name = let rest = env_var env name in if text_eq k name then some v else rest

-- what the payload holds in a field: a string, a number as it is printed, or anything else
pub data JsonField : Type 0 where
  string number : Text → JsonField
  other : JsonField

abbrev raw_value : Option JsonField → Option Text
raw_value none = none
raw_value (some (string s)) = some s
raw_value (some (number n)) = some n
raw_value (some other) = none

abbrev slice_of : (Text → ℕ) → Option Text → Text
slice_of hash none = default_instance_key
slice_of hash (some value) = sanitize_key hash value

abbrev field_of : (Text → Text → Option JsonField) → Option Text → Text → Option JsonField
field_of payload_get none field = none
field_of payload_get (some payload) field = payload_get payload field

unfoldable pub instance_slice :
    (Text → ℕ) → (Text → Text → Option JsonField) → Option Text → Env → Text
instance_slice hash payload_get none env = default_instance_key
instance_slice hash payload_get (some field) env =
    slice_of hash
      (raw_value (field_of payload_get (env_var env (codes "AGENT_TRIGGER_PAYLOAD")) field))

abbrev scope_of : (Text → ℕ) → Option Text → Text
scope_of hash none = scheduled_scope
scope_of hash (some source) = codes "trigger-" ++ sanitize_key hash source

unfoldable pub instance_scope : (Text → ℕ) → Env → Text
instance_scope hash env = scope_of hash (env_var env (codes "AGENT_TRIGGER_SOURCE"))

unfoldable pub resolve_key :
    (Text → ℕ) → (Text → Text → Option JsonField) → Option Text → Env → Text
unfolding instance_scope instance_slice
resolve_key hash payload_get field env =
    instance_scope hash env ++ (b':' ∷ instance_slice hash payload_get field env)
