-- ===== src/Tests/Commanding.antt =====
-- Commands of a chat on a concrete policy.
use dotagent.Common.{ℕ, ◌≡◌, ◌≢◌, ◌↔◌, refl, true, some, List, [], ◌∷◌}
use dotagent.Common.Int.{pos}
use dotagent.Common.Text.{Text, codes, is_whitespace, trim, trim_start, trim_end}
use dotagent.Common.Text.Lines.{split_whitespace}
use dotagent.Common.Table.{get, insert, remove, retain_keys}
use dotagent.Os.Policy.{
  OsConfig, allowed, confirmed, denied, default_os_confirm, is_bare_binary_name, matches_any,
  is_wildcard, is_active, permits, decide,
}
use dotagent.Os.Policy.Covers.{Covered}
use dotagent.Os.Policy.Verdicts.{Admitted, decide_iff}
use dotagent.Os.Bang.{split_tokens, parse_bang, is_confirmation}
use dotagent.Os.Bang.Quotes.{typed, split_tokens-typed}
use dotagent.Os.Texts.{confirmation_prompt}
use dotagent.Os.Texts.Shared.{confirmation_prompt-shared}
use dotagent.Os.Commands.{
  Machine, exited, park, take_parked, run_allowed, handle_typed_command, handle_confirmation,
  handle_message, os_run, call_os,
}
use dotagent.Os.Serve.{History, Event, said, called, serve, last_ask}
use dotagent.Os.Serve.Parked.{parked-last_ask}

abbrev policy : OsConfig
policy = record {
  enabled = true;
  allow = codes "rg" ∷ codes "kubectl  get" ∷ codes "rm" ∷ [];
  deny = codes "rm -rf" ∷ [];
  confirm = default_os_confirm;
  confirm_ttl_seconds = 120;
  tools = [];
  timeout_seconds = 60;
}

-- the whole token, never a part of it
get_pods : decide policy (codes "kubectl") (codes "get" ∷ codes "pods" ∷ []) ≡ allowed
unfolding decide permits is_active is_wildcard matches_any is_bare_binary_name split_whitespace
    is_whitespace
get_pods = refl

getsecrets : decide policy (codes "kubectl") (codes "getsecrets" ∷ []) ≡ denied
unfolding decide permits is_active is_wildcard matches_any is_bare_binary_name split_whitespace
    is_whitespace
getsecrets = refl

rm_rf : decide policy (codes "rm") (codes "-rf" ∷ codes "/" ∷ []) ≡ denied
unfolding decide permits is_active is_wildcard matches_any is_bare_binary_name split_whitespace
    is_whitespace
rm_rf = refl

a_path : decide policy (codes "/bin/rm") [] ≡ denied
unfolding decide permits is_active is_wildcard matches_any is_bare_binary_name split_whitespace
    is_whitespace
a_path = refl

decide_iff_example :
    ((decide policy (codes "rm") (codes "a" ∷ []) ≢ denied)
      ↔ Admitted policy (codes "rm") (codes "a" ∷ []))
    × ((decide policy (codes "rm") (codes "a" ∷ []) ≡ confirmed) ↔ (
        Admitted policy (codes "rm") (codes "a" ∷ [])
        × Covered (codes "rm") (codes "a" ∷ []) policy.confirm))
decide_iff_example = decide_iff policy (codes "rm") (codes "a" ∷ [])

a_phrase :
    parse_bang (codes "!rg \"hello world\" src")
    ≡ some (codes "rg", codes "hello world" ∷ codes "src" ∷ [])
unfolding parse_bang split_tokens is_whitespace trim trim_start trim_end
a_phrase = refl

abbrev phrases : List Text
phrases = codes "rg" ∷ codes "hello  world" ∷ [] ∷ codes "it's" ∷ []

split_tokens-typed_example : split_tokens (typed phrases) ≡ phrases
split_tokens-typed_example = split_tokens-typed phrases (refl, (refl, (refl, (refl, tt))))

confirmation_prompt-shared_example :
    confirmation_prompt (codes "rm") (codes "my file" ∷ []) 120
    ≡ confirmation_prompt (codes "rm") (codes "my" ∷ codes "file" ∷ []) 120
confirmation_prompt-shared_example =
    confirmation_prompt-shared (codes "rm") (codes "my") (codes "file") [] 120

abbrev machine : Machine
machine = record { ends = λ bin args timeout. exited (some (pos 0)) [] []; home = true }

abbrev line : Text → Text → ℕ → Event
line session text now = record {
  request = said session text;
  cfg = policy;
  now = now;
  machine = machine;
}

-- someone asks to remove a file, another conversation says yes, then this one does, twice
abbrev confirmed_once : History
confirmed_once =
    line (codes "a") (codes "!!") 4000000000
    ∷ line (codes "a") (codes " !! ") 3000000000
    ∷ line (codes "b") (codes "!!") 2000000000
    ∷ line (codes "a") (codes "!rm notes") 1000000000
    ∷ []

one_removal : (serve confirmed_once).started ≡ (codes "rm", codes "notes" ∷ []) ∷ []
unfolding serve handle_message handle_confirmation handle_typed_command run_allowed park take_parked
    is_confirmation parse_bang split_tokens decide permits is_active is_wildcard matches_any
    is_bare_binary_name split_whitespace is_whitespace trim trim_start trim_end get insert remove
    retain_keys
one_removal = refl

-- a model cannot confirm
no_removal :
    (serve (
      record {
        request = called (codes "os-run") (codes "rm") (codes "notes" ∷ []);
        cfg = policy;
        now = 0;
        machine = machine;
      }
      ∷ [])).started
    ≡ []
unfolding serve call_os os_run run_allowed decide permits is_active is_wildcard matches_any
    is_bare_binary_name split_whitespace is_whitespace
no_removal = refl

parked-last_ask_example :
    get (serve confirmed_once).parked (codes "a") ≡ last_ask confirmed_once (codes "a")
parked-last_ask_example = parked-last_ask confirmed_once (codes "a")
