-- ===== src/Os/Commands.antt =====
-- The commands a chat or a model starts: crates/dotagent/src/os_exec.rs, the handlers of a typed line
-- in crates/dotagent/src/commands/daemon.rs and of the tools in
-- crates/dotagent/src/commands/mcp.rs.
use dotagent.Common.{
  ℕ, ◌-◌, ◌*◌, Bool, true, false, Option, none, some, List, [], ◌∷◌, ltb, if◌then◌else◌, unwrap_or,
}
use dotagent.Common.Int.{ℤ, negsuc}
use dotagent.Common.Text.{Text, codes, text_eq}
use dotagent.Common.Table.{Table, get, insert, remove}
use dotagent.Common.Text.Lines.{join_with}
use dotagent.Os.Policy.{
  OsConfig, OsToolConfig, OsDecision, allowed, confirmed, denied, argv, tool_name, decide,
}
use dotagent.Os.Bang.{parse_bang, is_confirmation}
use dotagent.Os.Texts.{
  refusal, refusal_typed, confirmation_prompt, exited_text, failed_text, not_started_text,
  timed_out_text, needs_person, nothing_waits, os_list, spaced,
}

abbrev pub Command : Type 0
Command = Text × List Text

-- a command that waits for a yes; `Instant` in nanoseconds
pub record Pending : Type 0 where
  pub bin : Text
  pub args : List Text
  pub asked_at : ℕ

abbrev pub Confirmations : Type 0
Confirmations = Table Pending

unfoldable pub park : Text → Text → List Text → ℕ → Confirmations → Confirmations
park session bin args now inner =
    insert inner session (record { bin = bin; args = args; asked_at = now })

abbrev pub unless_aged : ℕ → ℕ → Pending → Option Command
unless_aged ttl_seconds now p =
    if ltb (ttl_seconds * 1000000000) (now - p.asked_at) then none else some (p.bin, p.args)

abbrev taken : Option Pending → Text → ℕ → ℕ → Confirmations → Option Command × Confirmations
taken none session ttl_seconds now inner = (none, inner)
taken (some p) session ttl_seconds now inner = (unless_aged ttl_seconds now p, remove inner session)

-- `Confirmations::take`
unfoldable pub take_parked : Text → ℕ → ℕ → Confirmations → Option Command × Confirmations
take_parked session ttl_seconds now inner = taken (get inner session) session ttl_seconds now inner

-- how a supervised process ends; the texts are decoded and trimmed
pub data Ending : Type 0 where
  not_started : Text → Ending
  exited : Option ℤ → Text → Text → Ending
  timed_out : ℕ → Ending
  failed : Text → Ending

-- what the machine does with a command under a deadline, and whether the audit log has a home
pub record Machine : Type 0 where
  pub ends : Text → List Text → ℕ → Ending
  pub home : Bool

pub record Invoked : Type 0 where
  pub bin : Text
  pub args : List Text
  pub exit_code : ℤ
  pub timed_out : Bool

pub record Outcome : Type 0 where
  pub text : Text
  pub is_error : Bool

-- what the handlers share, and what they have done so far: the processes started and the entries
-- given to the audit log, the newest first
pub record Shell : Type 0 where
  pub parked : Confirmations
  pub started : List Command
  pub audited : List Invoked

abbrev pub new_shell : Shell
new_shell = record { parked = []; started = []; audited = [] }

abbrev exit_code_of : Ending → ℤ
exit_code_of (exited code out err) = unwrap_or code (negsuc 0)
exit_code_of _ = negsuc 0

abbrev was_killed : Ending → Bool
was_killed (timed_out elapsed) = true
was_killed _ = false

abbrev outcome_after : Text → Ending → Outcome
outcome_after bin (not_started e) = record { text = not_started_text bin e; is_error = true }
outcome_after bin (exited code out err) =
    let (text, is_error) = exited_text bin (unwrap_or code (negsuc 0)) out err in
    record { text = text; is_error = is_error }
outcome_after bin (timed_out elapsed) = record {
  text = timed_out_text bin elapsed;
  is_error = true;
}
outcome_after bin (failed e) = record { text = failed_text bin e; is_error = true }

abbrev recorded : Machine → Text → List Text → Ending → List Invoked → List Invoked
recorded machine bin args end log =
    if machine.home
    then record { bin = bin; args = args; exit_code = exit_code_of end; timed_out = was_killed end }
      ∷ log
    else log

abbrev pub after_end : Machine → Text → List Text → Ending → Shell → Shell
after_end machine bin args (not_started e) sh = sh
after_end machine bin args end sh = record sh {
  started = (bin, args) ∷ sh.started;
  audited = recorded machine bin args end sh.audited;
}

abbrev pub is_denied : OsDecision → Bool
is_denied denied = true
is_denied _ = false

abbrev pub is_confirmed : OsDecision → Bool
is_confirmed confirmed = true
is_confirmed _ = false

unfoldable pub run_allowed :
    OsConfig → Text → List Text → (Text → Text) → Machine → Shell → Outcome × Shell
run_allowed cfg bin args refused machine sh =
    if is_denied (decide cfg bin args)
    then (record { text = refused bin; is_error = true }, sh)
    else (let end = machine.ends bin args cfg.timeout_seconds in
        (outcome_after bin end, after_end machine bin args end sh))

abbrev pub answer_typed :
    OsDecision → OsConfig → ℕ → Text → Text → List Text → Machine → Shell → Text × Shell
answer_typed denied cfg now session bin args machine sh = (refusal_typed bin, sh)
answer_typed confirmed cfg now session bin args machine sh = (
  confirmation_prompt bin args cfg.confirm_ttl_seconds,
  record sh { parked = park session bin args now sh.parked },
)
answer_typed allowed cfg now session bin args machine sh =
    let (outcome, sh') = run_allowed cfg bin args refusal_typed machine sh in (outcome.text, sh')

unfoldable pub handle_typed_command :
    OsConfig → ℕ → Text → Text → List Text → Machine → Shell → Text × Shell
handle_typed_command cfg now session bin args machine sh =
    answer_typed (decide cfg bin args) cfg now session bin args machine sh

abbrev pub run_taken : Option Command → OsConfig → Machine → Shell → Text × Shell
run_taken none cfg machine sh = (nothing_waits, sh)
run_taken (some (bin, args)) cfg machine sh =
    let (outcome, sh') = run_allowed cfg bin args refusal_typed machine sh in (outcome.text, sh')

unfoldable pub handle_confirmation : OsConfig → ℕ → Text → Machine → Shell → Text × Shell
handle_confirmation cfg now session machine sh =
    let (command, inner) = take_parked session cfg.confirm_ttl_seconds now sh.parked in
    run_taken command cfg machine (record sh { parked = inner })

abbrev pub typed_line : Option Command → OsConfig → ℕ → Text → Machine → Shell → Option Text × Shell
typed_line none cfg now session machine sh = (none, sh)
typed_line (some (bin, args)) cfg now session machine sh =
    let (reply, sh') = handle_typed_command cfg now session bin args machine sh in (some reply, sh')

-- `handle_message` of parameters that are valid, up to the gateway, which has the messages that are
-- not answered here
unfoldable pub handle_message : OsConfig → ℕ → Text → Text → Machine → Shell → Option Text × Shell
handle_message cfg now session text machine sh =
    if is_confirmation text
    then (let (reply, sh') = handle_confirmation cfg now session machine sh in (some reply, sh'))
    else typed_line (parse_bang text) cfg now session machine sh

-- the tools of the model: a person has to confirm, so these never do
abbrev pub run_called : OsConfig → Text → List Text → Text → Machine → Shell → Outcome × Shell
run_called cfg bin args shown machine sh =
    if is_confirmed (decide cfg bin args)
    then (record { text = needs_person bin shown; is_error = true }, sh)
    else run_allowed cfg bin args refusal machine sh

-- the tool that the operator published under a name
abbrev pub find_tool : List OsToolConfig → Text → Option OsToolConfig
find_tool [] tool = none
find_tool (t ∷ tools) tool = if text_eq (tool_name t) tool then some t else find_tool tools tool

abbrev pub named_tool :
    Option OsToolConfig → OsConfig → List Text → Machine → Shell → Option Outcome × Shell
named_tool none cfg args machine sh = (none, sh)
named_tool (some t) cfg args machine sh =
    let extra = argv t args in
    let (outcome, sh') = run_called cfg t.bin extra (32 ∷ join_with (codes " ") extra) machine sh in
    (some outcome, sh')

unfoldable pub os_named_tool :
    OsConfig → Text → List Text → Machine → Shell → Option Outcome × Shell
os_named_tool cfg tool args machine sh = named_tool (find_tool cfg.tools tool) cfg args machine sh

unfoldable pub os_run : OsConfig → Text → List Text → Machine → Shell → Option Outcome × Shell
os_run cfg bin args machine sh =
    let (outcome, sh') = run_called cfg bin args (spaced args) machine sh in (some outcome, sh')

unfoldable pub call_os :
    OsConfig → Text → Text → List Text → Machine → Shell → Option Outcome × Shell
call_os cfg tool bin args machine sh =
    if text_eq tool (codes "os-list")
    then (some (record { text = (os_list cfg).0; is_error = (os_list cfg).1 }), sh)
    else (if text_eq tool (codes "os-run")
        then os_run cfg bin args machine sh
        else os_named_tool cfg tool args machine sh)
