-- ===== src/Pool/Frames/Bytes.antt =====
-- What `wrote_bytes` promises.
use dotagent.Common.{
  ℕ, zero, suc, ◌+◌, ◌≤◌, ◌<◌, ◌≡◌, refl, ◌⊎◌, inl, inr, true, Option, none, some, arith, leb, ltb,
  Bool-cases, Option-cases,
}
use dotagent.Common.Text.{Text}
use dotagent.Pool.Frames.{
  WriteStep, took, failed, FrameWriteError, Written, Pipe, flush_frame, after_step, step_error,
  write_rounds, write_frame,
}

-- written whole, or with an error that says whether a byte was taken
abbrev pub IsHonest : ℕ → Written → Type 0
IsHonest size w =
    ((w.error ≡ none) × (w.bytes ≡ size))
    ⊎ ((e : FrameWriteError) × (w.error ≡ some e) × (e.wrote_bytes ≡ ltb 0 w.bytes))

flush-IsHonest : (size : ℕ) (o : Option Text) → 0 < size → IsHonest size (flush_frame size o)
unfolding flush_frame
flush-IsHonest size none p = inl (refl, refl)
flush-IsHonest size (some m) p =
    inr (record { wrote_bytes = true; message = m }, refl, ground arith)

-- a step that does not end the loop takes a byte, and none that is not there
step-takes :
    (step : WriteStep) (size written : ℕ)
    → step_error step ≡ none
    → written < size
    → (written < after_step step size written) × (after_step step size written ≤ size)
step-takes (failed m) size written e lt = cc
step-takes (took zero) size written e lt = cc
step-takes (took (suc n)) size written e lt = (ground arith, ground arith)

write_rounds-IsHonest :
    (rounds size written call : ℕ) (pipe : Pipe)
    → 0 < size
    → written ≤ size
    → size ≤ written + rounds
    → IsHonest size (write_rounds rounds size written call pipe)
unfolding write_rounds
write_rounds-IsHonest zero size written call pipe p le enough =
    let all_written : written ≡ size = omega arith in
    rw all_written (flush-IsHonest size pipe.flushed p)
write_rounds-IsHonest (suc rounds) size written call pipe p le enough =
    elim (Bool-cases (leb size written)) [
      | inl b ↦
          let all_written : written ≡ size = ground arith in
          rw (b, all_written) (flush-IsHonest size pipe.flushed p)
      | inr b ↦ elim (Option-cases (step_error (pipe.steps call))) [
        | inr (m, e) ↦
            rw (b, e) (inr (record { wrote_bytes = ltb 0 written; message = m }, refl, refl))
        | inl e ↦
            let (more, fits) = step-takes (pipe.steps call) size written e (ground arith) in
            rw (b, e)
              (write_rounds-IsHonest rounds size (after_step (pipe.steps call) size written)
                (suc call) pipe p fits (omega arith))
      ]
    ]

-- A frame is written whole, or the error says truthfully whether the pipe has taken a byte of it,
-- however the pipe splits the writes and wherever it fails.
pub write_frame-IsHonest :
    (json : ℕ) (pipe : Pipe) → IsHonest (suc json) (write_frame (some json) pipe)
unfolding write_frame
write_frame-IsHonest json pipe =
    write_rounds-IsHonest (suc json) (suc json) 0 0 pipe (omega arith) (omega arith) (omega arith)
