-- ===== src/Pool/Retry.antt =====
-- `exchange_with_retry` of crates/dotagent-runner/src/persistent.rs: a request is tried with the
-- instance that is there, and once more with a fresh one if the first was gone.
pub mod Once
use dotagent.Common.{
  ℕ, zero, suc, ◌+◌, Bool, true, false, ◌&&◌, Option, none, some, List, [], ◌∷◌, ◌++◌, ltb, leb,
  if◌then◌else◌,
}
use dotagent.Common.Int.{pos}
use dotagent.Common.Text.{Text, codes, decimal}
use dotagent.Pool.Exchange.{
  RunOutcome, Instance, Exchange, answered, dead_before_request, request_lost, timed_out, Probe,
  exchange,
}

pub data RecycleReason : Type 0 where
  idle max_invocations crashed timeout evicted shutdown config_changed : RecycleReason

pub data SlotState : Type 0 where
  starting retiring stopped : SlotState
  live : Instance → SlotState

-- the audit events, of the agent and key in question: pid; reason and invocations
pub data PoolEvent : Type 0 where
  started : ℕ → PoolEvent
  recycled : RecycleReason → ℕ → PoolEvent

-- how the spawn of an instance ends
pub data Spawned : Type 0 where
  up : ℕ → Spawned
  refused : Text → Spawned

-- What one round meets: the state of the slot when its lock is had, the spawn, the exchange, and
-- whether the supervisor takes the idle clock.
pub record Round : Type 0 where
  pub seen : SlotState
  pub spawned : Spawned
  pub probe : Probe
  pub idle_retimed : Bool

-- the parts of the manifest that decide
pub record Limits : Type 0 where
  pub max_invocations : ℕ
  pub timeout_seconds : ℕ

-- `Ok(outcome)`, `Err(RequestLost)` and `Err(Spawn)`
pub data Reply : Type 0 where
  outcome : RunOutcome → Reply
  lost : Text → Reply
  spawn_failed : Text → Reply

-- how a round ends: with a reply, or with the error that the next one starts from
pub data Verdict : Type 0 where
  finish : Reply → Verdict
  again : Text → Verdict

-- a round: its end, what it leaves in the slot, the audit, the bytes of the request that were taken
pub record Ended : Type 0 where
  pub verdict : Verdict
  pub slot : SlotState
  pub events : List PoolEvent
  pub bytes : ℕ

-- `retire_held`: the slot is stopped and forgotten, and the audit says why
abbrev retire : Verdict → RecycleReason → Instance → ℕ → Ended
retire verdict reason inst bytes = record {
  verdict = verdict;
  slot = stopped;
  events = recycled reason inst.invocations ∷ [];
  bytes = bytes;
}

timed_out_outcome : Limits → RunOutcome
timed_out_outcome limits = record {
  exit_code = pos 124;
  timed_out = true;
  duration_seconds = limits.timeout_seconds;
  stdout_tail = [];
  stderr_tail =
      codes "persistent agent did not answer within "
      ++ decimal limits.timeout_seconds
      ++ codes "s — instance recycled";
  stdout_truncated_lines = 0;
  stderr_truncated_lines = 0;
}

-- the `match` on the exchange
settle : Limits → Bool → Exchange → Instance → ℕ → Ended
unfolding timed_out_outcome
settle limits idle_retimed (answered o) inst bytes =
    if ltb 0 limits.max_invocations && leb limits.max_invocations inst.invocations
    then retire (finish (outcome o)) max_invocations inst bytes
    else (if idle_retimed
        then record { verdict = finish (outcome o); slot = live inst; events = []; bytes = bytes }
        else retire (finish (outcome o)) idle inst bytes)
settle limits idle_retimed timed_out inst bytes =
    retire (finish (outcome (timed_out_outcome limits))) timeout inst bytes
settle limits idle_retimed (dead_before_request why) inst bytes =
    retire (again why) crashed inst bytes
settle limits idle_retimed (request_lost why) inst bytes =
    retire (finish (lost why)) crashed inst bytes

-- a live instance is asked
ask : Limits → Round → Instance → Ended
unfolding settle
ask limits r inst =
    let (ended, after, bytes) = exchange inst r.probe in
    settle limits r.idle_retimed ended after bytes

abbrev with_event : PoolEvent → Ended → Ended
with_event e ended = record ended { events = e ∷ ended.events }

-- a slot that is reserved is filled first
abbrev spawn_and_ask : Spawned → Limits → Round → Ended
spawn_and_ask (up pid) limits r =
    with_event (started pid) (ask limits r (record { pid = pid; invocations = 0; seq = 0 }))
spawn_and_ask (refused e) limits r = record {
  verdict = finish (spawn_failed e);
  slot = stopped;
  events = [];
  bytes = 0;
}

-- the detached slot is left alone
abbrev pass : Text → SlotState → Ended
pass last_error slot = record { verdict = again last_error; slot = slot; events = []; bytes = 0 }

try_round : Limits → Text → SlotState → Round → Ended
unfolding ask
try_round limits last_error starting r = spawn_and_ask r.spawned limits r
try_round limits last_error (live inst) r = ask limits r inst
try_round limits last_error retiring r = pass last_error retiring
try_round limits last_error stopped r = pass last_error stopped

-- a whole call: the reply, and the rounds in order
pub record Dispatched : Type 0 where
  pub reply : Reply
  pub rounds : List Ended

abbrev go_on : Verdict → Ended → Dispatched → Dispatched
go_on (finish reply) ended rest = record { reply = reply; rounds = ended ∷ [] }
go_on (again why) ended rest = record { reply = rest.reply; rounds = ended ∷ rest.rounds }

abbrev error_of : Verdict → Text → Text
error_of (finish reply) last_error = last_error
error_of (again why) last_error = why

-- the loop over the attempts
try_rounds : Limits → Text → List Round → Dispatched
unfolding try_round
try_rounds limits last_error [] = record {
  reply = spawn_failed (codes "persistent agent died twice in a row: " ++ last_error);
  rounds = [];
}
try_rounds limits last_error (r ∷ rounds) =
    let ended = try_round limits last_error r.seen r in
    let rest = try_rounds limits (error_of ended.verdict last_error) rounds in
    go_on ended.verdict ended rest

-- two attempts
unfoldable pub exchange_with_retry : Limits → Round → Round → Dispatched
unfolding try_rounds
exchange_with_retry limits first second = try_rounds limits [] (first ∷ second ∷ [])
