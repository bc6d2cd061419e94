-- ===== src/Pool/Keys/Plain.antt =====
-- What the keys of instances are made of, and when two are the same.
use dotagent.Common.{
  ℕ, zero, suc, ◌+◌, ◌/◌, ◌%◌, ◌≤◌, ◌≡◌, ◌≢◌, refl, inl, inr, Bool, true, false, not, ◌||◌, Option,
  none, some, [], ◌∷◌, arith, ltb, ◌==◌, all, retain, is_some, Bool-cases,
}
use dotagent.Common.Text.{Text, codes, byte_len, is_ascii_alphanumeric}
use dotagent.Common.Text.Digits.{has, split_first}
use dotagent.Common.Text.Lines.{is_empty}
use dotagent.Pool.Keys.{
  max_key_len, is_key_char, hex_digit, hex_digits, digest_key, sanitize_key, Env, JsonField,
  scope_of, instance_slice, instance_scope, resolve_key, env_var,
}

hex_digits-all :
    (more n : ℕ) (rest : Text)
    → all is_key_char rest ≡ true
    → all is_key_char (hex_digits more n rest) ≡ true
unfolding hex_digits is_key_char
hex_digits-all zero n rest h = h
hex_digits-all (suc more) n rest h =
    hex_digits-all more (n / 16) (hex_digit (n % 16) ∷ rest) (ground arith)

hex_digits-len :
    (more n : ℕ) (rest : Text) → byte_len (hex_digits more n rest) ≡ more + byte_len rest
unfolding hex_digits
hex_digits-len zero n rest = omega arith
hex_digits-len (suc more) n rest =
    ground (arith, hex_digits-len more (n / 16) (hex_digit (n % 16) ∷ rest))

retain-all : (p : ℕ → Bool) (s : Text) → all p (retain p s) ≡ true
retain-all p [] = refl
retain-all p (c ∷ s) = ground (arith, retain-all p s)

-- a key is plain: letters, digits and two marks, at most 64 of them
abbrev pub IsPlain : Text → Type 0
IsPlain key = (all is_key_char key ≡ true) × (byte_len key ≤ 64)

k_is_plain : is_key_char b'k' ≡ true
unfolding is_key_char
k_is_plain = refl

digest_key-IsPlain : (hash : Text → ℕ) (raw : Text) → IsPlain (digest_key hash raw)
digest_key-IsPlain hash raw = (
  ground (arith, hex_digits-all 16 (hash raw) [] refl, k_is_plain),
  omega (arith, hex_digits-len 16 (hash raw) []),
)

sanitize_key-IsPlain : (hash : Text → ℕ) (raw : Text) → IsPlain (sanitize_key hash raw)
unfolding sanitize_key
sanitize_key-IsPlain hash raw =
    let clean = retain is_key_char raw in
    elim (Bool-cases (
      is_empty clean || not (byte_len clean == byte_len raw) || ltb max_key_len (byte_len clean))) [
        | inl b ↦ rw b (digest_key-IsPlain hash raw)
        | inr b ↦ rw b (retain-all is_key_char raw, ground arith)
      ]

sanitize_key-some : (hash : Text → ℕ) (raw : Text) → is_empty (sanitize_key hash raw) ≡ false
unfolding sanitize_key
sanitize_key-some hash raw =
    let clean = retain is_key_char raw in
    elim (Bool-cases (
      is_empty clean || not (byte_len clean == byte_len raw) || ltb max_key_len (byte_len clean))) [
        | inl b ↦ rw b refl
        | inr b ↦ rw b (ground arith)
      ]

retain_self : (p : ℕ → Bool) (s : Text) → all p s ≡ true → retain p s ≡ s
retain_self p [] h = refl
retain_self p (c ∷ s) h = ground (arith, retain_self p s)

-- a plain key is its own
plain_stays :
    (hash : Text → ℕ) (key : Text)
    → IsPlain key
    → is_empty key ≡ false
    → sanitize_key hash key ≡ key
unfolding sanitize_key
plain_stays hash key plain some_key =
    let same_len : (byte_len key == byte_len key) ≡ true = ground arith in
    let short : ltb max_key_len (byte_len key) ≡ false = ground arith in
    rw (retain_self is_key_char key plain.0, some_key, same_len, short) refl

-- A value that is not its own key shares its key with another one, the key itself, whatever the
-- hash: two different values do collapse.
pub sanitize_key-shared :
    (hash : Text → ℕ) (raw : Text)
    → sanitize_key hash raw ≢ raw
    → (other : Text) × (other ≢ raw) × (sanitize_key hash other ≡ sanitize_key hash raw)
sanitize_key-shared hash raw changed = (
  sanitize_key hash raw,
  changed,
  plain_stays hash (sanitize_key hash raw) (sanitize_key-IsPlain hash raw)
      (sanitize_key-some hash raw),
)

has-plain : (s : Text) → all is_key_char s ≡ true → has b':' s ≡ false
unfolding is_key_char is_ascii_alphanumeric
has-plain [] h = refl
has-plain (c ∷ s) h = ground (arith, has-plain s)

has-scope : (hash : Text → ℕ) (source : Option Text) → has b':' (scope_of hash source) ≡ false
has-scope hash none = refl
has-scope hash (some source) =
    has-plain (sanitize_key hash source) (sanitize_key-IsPlain hash source).0

-- Two requests get the same instance only if they come from the same scope and pick the same slice;
-- so a run of the schedule never shares one with a run that a trigger asked for.
pub resolve_key-same :
    (hash : Text → ℕ) (payload_get : Text → Text → Option JsonField) (field : Option Text)
    (env env' : Env)
    → resolve_key hash payload_get field env ≡ resolve_key hash payload_get field env'
    → (instance_scope hash env ≡ instance_scope hash env')
      × (instance_slice hash payload_get field env ≡ instance_slice hash payload_get field env')
      × (is_some (env_var env (codes "AGENT_TRIGGER_SOURCE"))
          ≡ is_some (env_var env' (codes "AGENT_TRIGGER_SOURCE")))
unfolding resolve_key instance_scope
resolve_key-same hash payload_get field env env' e =
    let source = env_var env (codes "AGENT_TRIGGER_SOURCE") in
    let source' = env_var env' (codes "AGENT_TRIGGER_SOURCE") in
    let parts =
      split_first b':' (scope_of hash source) (scope_of hash source')
        (instance_slice hash payload_get field env) (instance_slice hash payload_get field env')
        (has-scope hash source) (has-scope hash source') e in
    (parts.0, parts.1, same_kind source source' parts.0)
  where
    same_kind : (a b : Option Text) → scope_of hash a ≡ scope_of hash b → is_some a ≡ is_some b
    same_kind none none h = refl
    same_kind none (some t) h = ground (arith, h)
    same_kind (some s) none h = ground (arith, h)
    same_kind (some s) (some t) h = refl
