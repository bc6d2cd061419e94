-- ===== src/Pool/Retry/Once.antt =====
-- A request is delivered at most once.
use dotagent.Common.{
  ℕ, ◌+◌, ◌≤◌, ◌<◌, ◌≡◌, refl, inl, inr, Bool, ◌&&◌, List, [], ◌∷◌, arith, ltb, leb, if◌then◌else◌,
  Bool-cases,
}
use dotagent.Common.Text.{Text}
use dotagent.Pool.Exchange.{
  Instance, Exchange, answered, dead_before_request, request_lost, timed_out, exchange,
}
use dotagent.Pool.Exchange.Delivery.{Tells, exchange-Tells}
use dotagent.Pool.Retry.{
  SlotState, starting, retiring, stopped, live, Spawned, up, refused, Round, Limits, Reply, outcome,
  lost, spawn_failed, Verdict, finish, again, Ended, Dispatched, settle, ask, spawn_and_ask,
  try_round, try_rounds, go_on, error_of, exchange_with_retry,
}

-- in how many rounds the pipe has taken bytes of the request
unfoldable pub delivered_rounds : List Ended → ℕ
delivered_rounds [] = 0
delivered_rounds (e ∷ rounds) = (if ltb 0 e.bytes then 1 else 0) + delivered_rounds rounds

-- a round that is followed by another has delivered nothing; nor has one that found no process
abbrev Fits : Verdict → ℕ → Type 0
Fits (again why) bytes = bytes ≡ 0
Fits (finish (outcome o)) bytes = Unit
Fits (finish (lost m)) bytes = 0 < bytes
Fits (finish (spawn_failed m)) bytes = bytes ≡ 0

abbrev IsFit : Ended → Type 0
IsFit e = Fits e.verdict e.bytes

settle-IsFit :
    (limits : Limits) (idle_retimed : Bool) (x : Exchange) (inst : Instance) (bytes : ℕ)
    → Tells x bytes
    → IsFit (settle limits idle_retimed x inst bytes)
unfolding settle
settle-IsFit limits idle_retimed (dead_before_request m) inst bytes h = h
settle-IsFit limits idle_retimed (request_lost m) inst bytes h = h
settle-IsFit limits idle_retimed timed_out inst bytes h = tt
settle-IsFit limits idle_retimed (answered o) inst bytes h =
    elim (Bool-cases
      (ltb 0 limits.max_invocations && leb limits.max_invocations inst.invocations)) [
        | inl a ↦ rw a tt
        | inr a ↦ elim (Bool-cases idle_retimed) [ inl b ↦ rw (a, b) tt | inr b ↦ rw (a, b) tt ]
      ]

ask-IsFit : (limits : Limits) (r : Round) (inst : Instance) → IsFit (ask limits r inst)
unfolding ask
ask-IsFit limits r inst =
    let (ended, after, bytes) = exchange inst r.probe in
    settle-IsFit limits r.idle_retimed ended after bytes (exchange-Tells inst r.probe)

spawn-IsFit : (limits : Limits) (s : Spawned) (r : Round) → IsFit (spawn_and_ask s limits r)
spawn-IsFit limits (up pid) r = ask-IsFit limits r _
spawn-IsFit limits (refused e) r = refl

try_round-IsFit :
    (limits : Limits) (last_error : Text) (s : SlotState) (r : Round)
    → IsFit (try_round limits last_error s r)
unfolding try_round
try_round-IsFit limits last_error starting r = spawn-IsFit limits r.spawned r
try_round-IsFit limits last_error (live inst) r = ask-IsFit limits r inst
try_round-IsFit limits last_error retiring r = refl
try_round-IsFit limits last_error stopped r = refl

-- what a reply says of the number of delivered_rounds
abbrev pub Once : Reply → ℕ → Type 0
Once (outcome o) n = n ≤ 1
Once (lost m) n = n ≡ 1
Once (spawn_failed m) n = n ≡ 0

go_on-Once :
    (v : Verdict) (e : Ended) (rest : Dispatched)
    → Fits v e.bytes
    → Once rest.reply (delivered_rounds rest.rounds)
    → Once (go_on v e rest).reply (delivered_rounds (go_on v e rest).rounds)
unfolding delivered_rounds
go_on-Once (finish (outcome o)) e rest fit once = ground arith
go_on-Once (finish (lost m)) e rest fit once = ground arith
go_on-Once (finish (spawn_failed m)) e rest fit once = ground arith
go_on-Once (again why) e rest fit once = Once-again rest.reply e.bytes _ fit once
  where
    Once-again :
        (r : Reply) (bytes n : ℕ)
        → bytes ≡ 0
        → Once r n
        → Once r ((if ltb 0 bytes then 1 else 0) + n)
    Once-again (outcome o) bytes n z h = ground arith
    Once-again (lost m) bytes n z h = ground arith
    Once-again (spawn_failed m) bytes n z h = ground arith

try_rounds-Once :
    (limits : Limits) (last_error : Text) (rounds : List Round)
    → let d = try_rounds limits last_error rounds in Once d.reply (delivered_rounds d.rounds)
unfolding try_rounds delivered_rounds
try_rounds-Once limits last_error [] = refl
try_rounds-Once limits last_error (r ∷ rounds) =
    let ended = try_round limits last_error r.seen r in
    go_on-Once ended.verdict ended _ (try_round-IsFit limits last_error r.seen r)
      (try_rounds-Once limits (error_of ended.verdict last_error) rounds)

-- One call delivers its request at most once, whatever the slots, spawns, pipes and answers of its
-- two attempts: exactly once if it reports the request as lost, and never if it reports that no
-- process could be had.
pub exchange_with_retry-Once :
    (limits : Limits) (first second : Round)
    → let d = exchange_with_retry limits first second in Once d.reply (delivered_rounds d.rounds)
unfolding exchange_with_retry
exchange_with_retry-Once limits first second = try_rounds-Once limits [] (first ∷ second ∷ [])
