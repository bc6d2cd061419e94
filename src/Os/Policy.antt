-- ===== src/Os/Policy.antt =====
-- What may run: the `[os]` section of crates/dotagent-core/src/config.rs.
pub mod Covers
pub mod Verdicts
use dotagent.Common.{
  ℕ, suc, Bool, true, false, not, ◌&&◌, ◌||◌, List, [], ◌∷◌, ◌++◌, map, ◌==◌, if◌then◌else◌,
  is_some_and, get_elem?, any,
}
use dotagent.Common.Text.{Text, codes, text_eq, starts_with, is_ascii_alphanumeric}
use dotagent.Common.Text.Digits.{has}
use dotagent.Common.Text.Lines.{is_empty, join_with, split_whitespace}

pub record OsToolConfig : Type 0 where
  pub bin : Text
  pub args : List Text
  pub description : Text

pub record OsConfig : Type 0 where
  pub enabled : Bool
  pub allow : List Text
  pub deny : List Text
  pub confirm : List Text
  pub confirm_ttl_seconds : ℕ
  pub tools : List OsToolConfig
  pub timeout_seconds : ℕ

-- what the policy says about one invocation
pub data OsDecision : Type 0 where
  allowed : OsDecision
  confirmed : OsDecision
  denied : OsDecision

abbrev pub default_os_confirm : List Text
default_os_confirm = map codes (
    "sh" ∷ "bash" ∷ "zsh" ∷ "fish" ∷ "dash" ∷ "ksh" ∷ "rm" ∷ "rmdir" ∷ "dd" ∷ "mkfs" ∷ "shred"
    ∷ "diskutil" ∷ "fdisk" ∷ "parted" ∷ "shutdown" ∷ "reboot" ∷ "halt" ∷ [])

abbrev pub default_os_config : OsConfig
default_os_config = record {
  enabled = false;
  allow = [];
  deny = [];
  confirm = default_os_confirm;
  confirm_ttl_seconds = 120;
  tools = [];
  timeout_seconds = 60;
}

abbrev tool_name_char : ℕ → ℕ
tool_name_char c = if is_ascii_alphanumeric c || c == b'-' || c == b'_' then c else b'-'

unfoldable pub tool_name : OsToolConfig → Text
tool_name t = codes "os-" ++ map tool_name_char (join_with (codes "-") (t.bin ∷ t.args))

abbrev pub argv : OsToolConfig → List Text → List Text
argv t extra = t.args ++ extra

-- a name, not a path
unfoldable pub is_bare_binary_name : Text → Bool
is_bare_binary_name bin =
    not (is_empty bin)
    && not (starts_with (codes "-") bin)
    && not (text_eq bin (codes ".."))
    && not (has b'/' bin)
    && not (has 92 bin)
    && not (has 0 bin)

-- every wanted token stands in the arguments, from this place on
abbrev pub all_at : ℕ → List Text → List Text → Bool
all_at i [] args = true
all_at i (want ∷ wants) args =
    is_some_and (get_elem? args i) (λ got. text_eq got want) && all_at (suc i) wants args

abbrev pub tokens_match : List Text → Text → List Text → Bool
tokens_match [] bin args = false
tokens_match (head ∷ tokens) bin args = text_eq head bin && all_at 0 tokens args

unfoldable pub matches_any : List Text → Text → List Text → Bool
matches_any list bin args = any (λ entry. tokens_match (split_whitespace entry) bin args) list

abbrev pub starts_wild : List Text → Bool
starts_wild [] = false
starts_wild (head ∷ tokens) = text_eq head (codes "*")

abbrev pub is_empty_list : List Text → Bool
is_empty_list [] = true
is_empty_list (x ∷ xs) = false

unfoldable pub is_wildcard : OsConfig → Bool
is_wildcard cfg = any (λ e. starts_wild (split_whitespace e)) cfg.allow

unfoldable pub is_active : OsConfig → Bool
is_active cfg = cfg.enabled && not (is_empty_list cfg.allow)

unfoldable pub permits : OsConfig → Text → List Text → Bool
permits cfg bin args =
    is_active cfg && is_bare_binary_name bin && (is_wildcard cfg || matches_any cfg.allow bin args)

unfoldable pub decide : OsConfig → Text → List Text → OsDecision
decide cfg bin args =
    if not (is_active cfg) || not (is_bare_binary_name bin)
    then denied
    else (if matches_any cfg.deny bin args
        then denied
        else (if not (permits cfg bin args)
            then denied
            else (if matches_any cfg.confirm bin args then confirmed else allowed)))
