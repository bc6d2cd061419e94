-- ===== src/Pool/Frames.antt =====
-- `write_frame` and `classify_write_failure` of crates/dotagent-runner/src/persistent.rs, and what
-- an answer says, crates/dotagent-runner/src/protocol.rs.
pub mod Bytes
use dotagent.Common.{
  ℕ, zero, suc, ◌+◌, ◌-◌, ◌*◌, Bool, true, false, ◌&&◌, ◌||◌, Option, none, some, List, [], ◌∷◌,
  ◌++◌, min, ltb, leb, ◌==◌, if◌then◌else◌, unwrap_or, or_option, length, drop,
}
use dotagent.Common.Int.{ℤ, pos}
use dotagent.Common.Text.{Text, codes, text_eq}

-- one call of `writer.write`: so many bytes were taken, or it failed
pub data WriteStep : Type 0 where
  took : ℕ → WriteStep
  failed : Text → WriteStep

pub record FrameWriteError : Type 0 where
  pub wrote_bytes : Bool
  pub message : Text

-- how the writing of a frame ends, and how many bytes of it the pipe has taken
pub record Written : Type 0 where
  pub bytes : ℕ
  pub error : Option FrameWriteError

abbrev broken : ℕ → Text → Written
broken written message = record {
  bytes = written;
  error = some (record { wrote_bytes = ltb 0 written; message = message });
}

-- What the pipe does in one frame: the steps of its writes by their number, and whether the flush
-- succeeds. A step takes no more than it is given.
pub record Pipe : Type 0 where
  pub steps : ℕ → WriteStep
  pub flushed : Option Text

-- the flush after the last byte
flush_frame : ℕ → Option Text → Written
flush_frame written none = record { bytes = written; error = none }
flush_frame written (some message) = record {
  bytes = written;
  error = some (record { wrote_bytes = true; message = message });
}

-- what one step makes of the loop's variable
abbrev after_step : WriteStep → ℕ → ℕ → ℕ
after_step (failed message) size written = written
after_step (took n) size written = written + min n (size - written)

-- does the loop end with this step?
abbrev step_error : WriteStep → Option Text
step_error (failed message) = some message
step_error (took zero) = some (codes "write returned zero bytes")
step_error (took (suc n)) = none

abbrev or_broken : Option Text → ℕ → Written → Written
or_broken none written rest = rest
or_broken (some message) written rest = broken written message

-- The loop, from the `call`-th write on. A round that does not end takes a byte, so there are at
-- most as many rounds as bytes.
write_rounds : ℕ → ℕ → ℕ → ℕ → Pipe → Written
unfolding flush_frame
write_rounds zero size written call pipe = flush_frame written pipe.flushed
write_rounds (suc rounds) size written call pipe =
    let step = pipe.steps call in
    let rest = write_rounds rounds size (after_step step size written) (suc call) pipe in
    if leb size written
    then flush_frame written pipe.flushed
    else or_broken (step_error step) written rest

-- the frame in so many bytes, if it could be serialized, and the end of the line
unfoldable pub write_frame : Option ℕ → Pipe → Written
unfolding write_rounds
write_frame none pipe = record {
  bytes = 0;
  error = some (record { wrote_bytes = false; message = codes "serializing frame" });
}
write_frame (some json) pipe = write_rounds (suc json) (suc json) 0 0 pipe

pub record InboundFrame : Type 0 where
  pub kind : Option Text
  pub id : Option Text
  pub ok : Bool
  pub output : Option Text
  pub error : Option Text
  pub exit_code : Option ℤ

unfoldable pub is_ready : InboundFrame → Bool
is_ready f = elim f.kind [ none ↦ false | some k ↦ text_eq k (codes "ready") ]

unfoldable pub answers : InboundFrame → Text → Bool
answers f id =
    (elim f.kind [ none ↦ true | some k ↦ text_eq k (codes "response") ])
    && (elim f.id [ none ↦ true | some got ↦ text_eq got id ])

unfoldable pub resolved_exit_code : InboundFrame → ℤ
resolved_exit_code f = unwrap_or f.exit_code (if f.ok then pos 0 else pos 1)

-- what a line of the agent's output is: a frame, or no protocol line
pub data Line : Type 0 where
  frame : InboundFrame → Line
  noise : Line

-- The loop over the lines of the output, up to its end. An error of the pipe ends it like its end.
unfoldable pub read_answer : List Line → Text → Option InboundFrame
unfolding answers
read_answer [] id = none
read_answer (noise ∷ lines) id = read_answer lines id
read_answer (frame f ∷ lines) id =
    let rest = read_answer lines id in if answers f id then some f else rest
