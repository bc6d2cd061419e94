-- ===== src/Pool/Exchange/Delivery.antt =====
-- How the end of an exchange tells whether the request was delivered.
use dotagent.Common.{
  ℕ, suc, ◌+◌, ◌<◌, ◌≡◌, refl, inl, inr, Bool, true, false, not, ◌&&◌, Option, none, some, arith,
  ltb, Bool-cases,
}
use dotagent.Pool.Frames.{Pipe, Written, FrameWriteError, InboundFrame, write_frame}
use dotagent.Pool.Frames.Bytes.{IsHonest, write_frame-IsHonest}
use dotagent.Pool.Exchange.{
  Instance, Exchange, answered, dead_before_request, request_lost, timed_out, Probe,
  classify_write_failure, judge_answer, conclude, exchange,
}

-- nothing was delivered if the process was dead before; something was if the request is lost
abbrev pub Tells : Exchange → ℕ → Type 0
Tells (answered o) bytes = 0 < bytes
Tells (dead_before_request m) bytes = bytes ≡ 0
Tells (request_lost m) bytes = 0 < bytes
Tells timed_out bytes = Unit

Tells-classify :
    (e : FrameWriteError) (reaped : Bool) (bytes : ℕ)
    → e.wrote_bytes ≡ ltb 0 bytes
    → Tells (classify_write_failure e reaped) bytes
unfolding classify_write_failure
Tells-classify e true bytes h = tt
Tells-classify e false bytes h = elim (Bool-cases e.wrote_bytes) [
  | inl b ↦ rw b ground arith
  | inr b ↦ rw b ground arith
]

Tells-judge :
    (answer : Option InboundFrame) (probe : Probe) (inst : Instance) (bytes : ℕ)
    → 0 < bytes
    → Tells (judge_answer answer probe inst).0 bytes
unfolding judge_answer
Tells-judge none probe inst bytes p = p
Tells-judge (some f) probe inst bytes p = p

Tells-conclude :
    (json : ℕ) (w : Written) (probe : Probe) (inst : Instance)
    → IsHonest (suc json) w
    → Tells (conclude w.error probe inst).0 w.bytes
unfolding conclude
Tells-conclude json w probe inst (inr (e, failed, honest)) =
    rw failed (Tells-classify e probe.reaped_at_write w.bytes honest)
Tells-conclude json w probe inst (inl (whole, bytes)) =
    elim (Bool-cases (probe.in_time && not probe.reaped_at_answer)) [
      | inl b ↦ rw (whole, b) (Tells-judge _ probe inst w.bytes (omega arith))
      | inr b ↦ rw (whole, b) tt
    ]

-- a frame that cannot be serialized is as one of which nothing was taken
any_frame-IsHonest :
    (o : Option ℕ) (pipe : Pipe) → (json : ℕ) × IsHonest (suc json) (write_frame o pipe)
unfolding write_frame
any_frame-IsHonest none pipe = (0, inr (_, refl, refl))
any_frame-IsHonest (some json) pipe = (json, write_frame-IsHonest json pipe)

-- An exchange that says that the process was dead before the request has delivered no byte of it;
-- one that was answered or lost has delivered at least one.
pub exchange-Tells :
    (inst : Instance) (probe : Probe)
    → let (ended, after, bytes) = exchange inst probe in Tells ended bytes
unfolding exchange
exchange-Tells inst probe = elim (Bool-cases probe.exited) [
  | inl a ↦ rw a refl
  | inr a ↦ elim (Bool-cases probe.retimed) [
    | inr b ↦ rw (a, b) refl
    | inl b ↦
        let (json, honest) = any_frame-IsHonest probe.json probe.pipe in
        let inst' : Instance = record inst { seq = inst.seq + 1 } in
        simp (a, b) (Tells-conclude json (write_frame probe.json probe.pipe) probe inst' honest)
  ]
]
