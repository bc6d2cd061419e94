-- ===== src/Tests/Pooling.antt =====
-- The pool on concrete requests.
use dotagent.Common.{
  ◌≢◌, Option, ℕ, zero, suc, ◌≤◌, ◌≡◌, refl, true, false, none, some, [], ◌∷◌, arith, length,
}
use dotagent.Common.Text.{Text, codes, text_eq_iff}
use dotagent.Pool.Frames.{
  WriteStep, took, failed, Pipe, write_frame, InboundFrame, frame, noise, read_answer,
}
use dotagent.Pool.Frames.Bytes.{IsHonest, write_frame-IsHonest}
use dotagent.Pool.Exchange.{Probe, exchange, classify_write_failure}
use dotagent.Pool.Retry.{Round, Limits, starting, live, up, exchange_with_retry}
use dotagent.Pool.Retry.Once.{Once, delivered_rounds, exchange_with_retry-Once}
use dotagent.Pool.Slots.{Slot, Slots, count_mine, has_slot, slot_for}
use dotagent.Pool.Slots.Ceiling.{slot_for-has}
use dotagent.Pool.Stderr.{push, empty_ring, since}
use dotagent.Pool.Stderr.Since.{push_all, since-push_all}
use dotagent.Pool.Exchange.{Instance}
use dotagent.Pool.Keys.{is_key_char, hex_digits, sanitize_key, JsonField, Env, resolve_key}
use dotagent.Pool.Keys.Plain.{sanitize_key-shared}
use dotagent.Pool.Cells.{
  Cells, nothing_yet, reserve, fill, lock, reserves, locks, spawns, Reach, here, then_step,
}
use dotagent.Pool.Cells.Tracked.{Reach-tracked}

abbrev instance_0 : Instance
instance_0 = record { pid = 7; invocations = 0; seq = 0 }

-- a pipe that takes all it is given
abbrev open_pipe : Pipe
open_pipe = record { steps = λ call. took 1000; flushed = none }

-- one that breaks after eight bytes
abbrev steps : ℕ → WriteStep
steps zero = took 8
steps (suc call) = failed (codes "broken pipe")

abbrev broken_pipe : Pipe
broken_pipe = record { steps = steps; flushed = none }

write_frame-IsHonest_example : IsHonest 41 (write_frame (some 40) broken_pipe)
write_frame-IsHonest_example = write_frame-IsHonest 40 broken_pipe

eight_bytes : (write_frame (some 40) broken_pipe).bytes ≡ 8
unfolding write_frame
eight_bytes = refl

abbrev reply : InboundFrame
reply = record {
  kind = none;
  id = none;
  ok = true;
  output = some (codes "done");
  error = none;
  exit_code = none;
}

abbrev probe : Probe
probe = record {
  exited = false;
  retimed = true;
  json = some 40;
  pipe = open_pipe;
  reaped_at_write = false;
  in_time = true;
  output = noise ∷ frame reply ∷ [];
  reaped_at_answer = false;
  stderr_delta = [];
  elapsed = 2;
}

-- the first instance has exited; a fresh one answers
abbrev dead_round : Round
dead_round = record {
  seen = live (record { pid = 7; invocations = 3; seq = 3 });
  spawned = up 8;
  probe = record probe { exited = true };
  idle_retimed = true;
}

abbrev fresh_round : Round
fresh_round = record { seen = starting; spawned = up 9; probe = probe; idle_retimed = true }

abbrev limits : Limits
limits = record { max_invocations = 0; timeout_seconds = 30 }

exchange_with_retry-Once_example :
    let d = exchange_with_retry limits dead_round fresh_round in
    Once d.reply (delivered_rounds d.rounds)
exchange_with_retry-Once_example = exchange_with_retry-Once limits dead_round fresh_round

answered_once : delivered_rounds (exchange_with_retry limits dead_round fresh_round).rounds ≡ 1
unfolding delivered_rounds exchange_with_retry exchange write_frame read_answer
answered_once = refl

-- a request whose frame broke off is lost, and not tried again
abbrev lost_round : Round
lost_round = record fresh_round { probe = record probe { pipe = broken_pipe } }

lost_once : length (exchange_with_retry limits lost_round fresh_round).rounds ≡ 1
unfolding exchange_with_retry exchange write_frame classify_write_failure
lost_once = refl

abbrev slot : Text → ℕ → Slot
slot key last_used = record {
  agent = codes "briefing";
  key = key;
  state = live (record { pid = 1; invocations = 1; seq = 1 });
  held = false;
  last_used = last_used;
}

abbrev two_slots : Slots
two_slots = slot (codes "a") 5 ∷ slot (codes "b") 3 ∷ []

slot_for-has_example :
    (count_mine (slot_for two_slots (codes "briefing") (codes "c") 2 9) (codes "briefing") ≤ 2)
    × (has_slot
          (slot_for two_slots (codes "briefing") (codes "c") 2 9)
          (codes "briefing")
          (codes "c")
        ≡ true)
unfolding count_mine
slot_for-has_example =
    slot_for-has two_slots (codes "briefing") (codes "c") 2 9 (omega arith) (omega arith)

since-push_all_example :
    since (push_all (push_all empty_ring (codes "up" ∷ [])) (codes "boom" ∷ [])) 1 ≡ codes "boom"
unfolding push_all push
since-push_all_example = since-push_all (codes "up" ∷ []) (codes "boom" ∷ [])

-- a request reserves a slot, takes its lock and spawns
abbrev one_live : Cells
one_live =
    fill 0 (live instance_0)
      (lock 0 true (reserve (codes "briefing") (codes "scheduled:default") nothing_yet))

one_live_reached : Reach nothing_yet one_live
unfolding reserve
one_live_reached =
    then_step
      (then_step
        (then_step here (reserves nothing_yet (codes "briefing") (codes "scheduled:default") refl))
        (locks _ 0 refl))
      (spawns _ 0 instance_0 refl refl)

Reach-tracked_example :
    (name : Text) × (key : Text) × (one_live.slots name key ≡ some 0)
    × ((name' key' : Text) → one_live.slots name' key' ≡ some 0 → (name ≡ name') × (key ≡ key'))
unfolding fill
Reach-tracked_example = Reach-tracked 0 instance_0 one_live_reached refl

abbrev no_json : Text → Text → Option JsonField
no_json payload field = none

-- two words are no plain value
sanitize_key-shared_example :
    (other : Text) × (other ≢ codes "a b")
    × (sanitize_key (λ s. 10) other ≡ sanitize_key (λ s. 10) (codes "a b"))
unfolding sanitize_key is_key_char hex_digits
sanitize_key-shared_example =
    sanitize_key-shared (λ s. 10) (codes "a b")
      (λ e. cc ((text_eq_iff (sanitize_key (λ s. 10) (codes "a b")) (codes "a b")).1 e))

two_words : sanitize_key (λ s. 10) (codes "a b") ≡ codes "k000000000000000a"
unfolding sanitize_key is_key_char hex_digits
two_words = refl

abbrev from_chat : Env
from_chat = (codes "AGENT_TRIGGER_SOURCE", codes "telegram") ∷ []

chat_key : resolve_key (λ s. 10) no_json none from_chat ≡ codes "trigger-telegram:default"
unfolding resolve_key sanitize_key is_key_char
chat_key = refl
