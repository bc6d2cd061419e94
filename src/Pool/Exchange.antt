-- ===== src/Pool/Exchange.antt =====
-- One request to a live instance: `exchange` of crates/dotagent-runner/src/persistent.rs, and the
-- tail of an output, `tail_lines` of crates/dotagent-runner/src/lib.rs.
pub mod Delivery
use dotagent.Common.{
  ℕ, zero, suc, ◌+◌, ◌-◌, Bool, true, false, not, ◌&&◌, Option, none, some, List, [], ◌∷◌, ◌++◌,
  ◌==◌, if◌then◌else◌, unwrap_or, or_option, length, drop, u32,
}
use dotagent.Common.Int.{ℤ, pos}
use dotagent.Common.Text.{Text, codes, decimal}
use dotagent.Common.Text.Lines.{lines, join_lines}
use dotagent.Pool.Frames.{
  Pipe, Written, FrameWriteError, write_frame, InboundFrame, resolved_exit_code, Line, read_answer,
}

-- the last `n` lines, and the number of those before
unfoldable pub tail_lines : Text → ℕ → Text × ℕ
tail_lines s n =
    let all = lines s in let start = length all - n in (join_lines (drop start all), start)

-- `TAIL_LINES`
abbrev kept_lines : ℕ
kept_lines = 500

pub record RunOutcome : Type 0 where
  pub exit_code : ℤ
  pub timed_out : Bool
  pub duration_seconds : ℕ
  pub stdout_tail : Text
  pub stderr_tail : Text
  pub stdout_truncated_lines : ℕ
  pub stderr_truncated_lines : ℕ

-- the parts of an `Instance` that decide
pub record Instance : Type 0 where
  pub pid : ℕ
  pub invocations : ℕ  -- u32
  pub seq : ℕ

pub data Exchange : Type 0 where
  answered : RunOutcome → Exchange
  dead_before_request : Text → Exchange
  request_lost : Text → Exchange
  timed_out : Exchange

-- What one exchange meets: whether the process has exited; whether the supervisor took the new
-- deadline; the bytes of the serialized frame, and the pipe; whether the reaper has collected the
-- process by the time that the write fails, and by the time of the answer; whether the answer comes
-- before the deadline; the lines of the output; what was printed to stderr, and the seconds.
pub record Probe : Type 0 where
  pub exited : Bool
  pub retimed : Bool
  pub json : Option ℕ
  pub pipe : Pipe
  pub reaped_at_write : Bool
  pub in_time : Bool
  pub output : List Line
  pub reaped_at_answer : Bool
  pub stderr_delta : Text
  pub elapsed : ℕ

unfoldable pub classify_write_failure : FrameWriteError → Bool → Exchange
classify_write_failure error reaper_owned =
    if reaper_owned
    then timed_out
    else (if error.wrote_bytes
        then request_lost (codes "write failed after request bytes were written: " ++ error.message)
        else dead_before_request
            (codes "write failed before request bytes were written: " ++ error.message))

outcome_of : InboundFrame → Probe → RunOutcome
unfolding tail_lines resolved_exit_code
outcome_of frame probe =
    let stdout = unwrap_or (or_option frame.output frame.error) [] in
    let (stdout_tail, stdout_truncated) = tail_lines stdout kept_lines in
    let (stderr_tail, stderr_truncated) = tail_lines probe.stderr_delta kept_lines in
    record {
      exit_code = resolved_exit_code frame;
      timed_out = false;
      duration_seconds = probe.elapsed;
      stdout_tail = stdout_tail;
      stderr_tail = stderr_tail;
      stdout_truncated_lines = stdout_truncated;
      stderr_truncated_lines = stderr_truncated;
    }

-- the answer that came, of a process that the reaper has not collected
judge_answer : Option InboundFrame → Probe → Instance → Exchange × Instance
unfolding outcome_of
judge_answer none probe inst = (request_lost (codes "agent closed stdout"), inst)
judge_answer (some frame) probe inst =
    (answered (outcome_of frame probe), record inst { invocations = u32 (inst.invocations + 1) })

-- what follows the writing of the frame
conclude : Option FrameWriteError → Probe → Instance → Exchange × Instance
unfolding judge_answer
conclude (some error) probe inst = (classify_write_failure error probe.reaped_at_write, inst)
conclude none probe inst =
    if probe.in_time && not probe.reaped_at_answer
    then judge_answer (read_answer probe.output (decimal inst.seq)) probe inst
    else (timed_out, inst)

-- how the exchange ends, the instance after it, and the bytes of the request that the pipe took
unfoldable pub exchange : Instance → Probe → Exchange × Instance × ℕ
unfolding conclude
exchange inst probe =
    if probe.exited
    then (dead_before_request (codes "process already exited"), inst, 0)
    else (if not probe.retimed
        then (dead_before_request (codes "supervisor had already collected the process"), inst, 0)
        else (let inst' = record inst { seq = inst.seq + 1 } in
            let written = write_frame probe.json probe.pipe in
            let (ended, after) = conclude written.error probe inst' in
            (ended, after, written.bytes)))
