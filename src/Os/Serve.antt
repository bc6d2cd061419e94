-- ===== src/Os/Serve.antt =====
-- The typed lines and the tool calls a machine gets, one after another: the callers of
-- crates/dotagent/src/os_exec.rs in crates/dotagent/src/commands/daemon.rs and
-- crates/dotagent/src/commands/mcp.rs. The configuration is read for each of them.
pub mod Runs
pub mod Parked
pub mod Grounds
use dotagent.Common.{ℕ, Bool, true, false, Option, none, some, List, [], ◌∷◌, if◌then◌else◌}
use dotagent.Common.Text.{Text, text_eq}
use dotagent.Os.Policy.{OsConfig, OsDecision, confirmed, decide}
use dotagent.Os.Bang.{parse_bang, is_confirmation}
use dotagent.Os.Commands.{
  Command, Pending, Machine, Shell, new_shell, is_confirmed, handle_message, call_os,
}

-- a line in a conversation, or a call of a tool with its `bin` and `args`
pub data Request : Type 0 where
  said : Text → Text → Request
  called : Text → Text → List Text → Request

pub record Event : Type 0 where
  pub request : Request
  pub cfg : OsConfig
  pub now : ℕ
  pub machine : Machine

-- the newest first
abbrev pub History : Type 0
History = List Event

abbrev pub respond : Request → OsConfig → ℕ → Machine → Shell → Shell
respond (said session text) cfg now machine sh = (handle_message cfg now session text machine sh).1
respond (called tool bin args) cfg now machine sh = (call_os cfg tool bin args machine sh).1

unfoldable pub serve : History → Shell
serve [] = new_shell
serve (e ∷ earlier) = respond e.request e.cfg e.now e.machine (serve earlier)

-- What a conversation waits to have confirmed, from the history alone: its last typed command that
-- the policy wanted confirmed, unless a `!!` of the conversation came since.
abbrev pub asked_of : Option Command → OsConfig → ℕ → Option Pending → Option Pending
asked_of none cfg now before = before
asked_of (some (bin, args)) cfg now before =
    if is_confirmed (decide cfg bin args)
    then some (record { bin = bin; args = args; asked_at = now })
    else before

abbrev pub ask_of : Request → OsConfig → ℕ → Text → Option Pending → Option Pending
ask_of (called tool bin args) cfg now session before = before
ask_of (said session' text) cfg now session before =
    if text_eq session' session
    then (if is_confirmation text then none else asked_of (parse_bang text) cfg now before)
    else before

unfoldable pub last_ask : History → Text → Option Pending
last_ask [] session = none
last_ask (e ∷ earlier) session = ask_of e.request e.cfg e.now session (last_ask earlier session)
