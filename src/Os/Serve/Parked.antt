-- ===== src/Os/Serve/Parked.antt =====
-- The commands that wait for a yes are those the history says.
use dotagent.Common.{
  ℕ, ◌≡◌, refl, sym, ap, ◌∙◌, inl, inr, Option, none, some, List, [], ◌∷◌, arith, if◌then◌else◌,
  Bool-cases, Option-cases,
}
use dotagent.Common.Text.{Text, text_eq, text_eq_iff, text_eq_comm}
use dotagent.Common.Table.{get, get-insert, get-remove}
use dotagent.Os.Policy.{OsConfig, OsDecision, allowed, confirmed, denied, decide}
use dotagent.Os.Bang.{parse_bang, is_confirmation}
use dotagent.Os.Commands.{
  Command, Confirmations, Machine, Ending, not_started, exited, timed_out, failed, Shell, park,
  take_parked, after_end, run_allowed, is_confirmed, answer_typed, handle_typed_command, run_taken,
  handle_confirmation, typed_line, handle_message, call_os,
}
use dotagent.Os.Texts.{refusal_typed}
use dotagent.Os.Serve.Runs.{run_allowed-runs, call_os-runs}
use dotagent.Os.Serve.{History, Request, said, called, respond, serve, asked_of, ask_of, last_ask}

after_end-parked :
    (machine : Machine) (bin : Text) (args : List Text) (end : Ending) (sh : Shell)
    → (after_end machine bin args end sh).parked ≡ sh.parked
after_end-parked machine bin args (not_started e) sh = refl
after_end-parked machine bin args (exited code out err) sh = refl
after_end-parked machine bin args (timed_out elapsed) sh = refl
after_end-parked machine bin args (failed e) sh = refl

module _ (cfg : OsConfig) (machine : Machine) (sh : Shell) where
  run_allowed-parked :
      (bin : Text) (args : List Text) (refused : Text → Text)
      → (run_allowed cfg bin args refused machine sh).1.parked ≡ sh.parked
  run_allowed-parked bin args refused =
      run_allowed-runs cfg machine sh (λ s. s.parked ≡ sh.parked) refl bin args refused
        (λ end d. after_end-parked machine bin args end sh)

  call_os-parked :
      (tool bin : Text) (args : List Text)
      → (call_os cfg tool bin args machine sh).1.parked ≡ sh.parked
  call_os-parked tool bin args =
      call_os-runs cfg machine sh (λ s. s.parked ≡ sh.parked) refl
        (λ bin args end a. after_end-parked machine bin args end sh) tool bin args

  run_taken-parked : (o : Option Command) → (run_taken o cfg machine sh).1.parked ≡ sh.parked
  run_taken-parked none = refl
  run_taken-parked (some (bin, args)) = run_allowed-parked bin args refusal_typed

get-take_parked :
    (session : Text) (ttl_seconds now : ℕ) (inner : Confirmations) (other : Text)
    → get (take_parked session ttl_seconds now inner).1 other
      ≡ (if text_eq session other then none else get inner other)
unfolding take_parked
get-take_parked session ttl_seconds now inner other = elim (Option-cases (get inner session)) [
  | inl n ↦ rw n (elim (Bool-cases (text_eq session other)) [
    | inl same ↦ rw same (ap (get inner) (sym ((text_eq_iff session other).0 same)) ∙ n)
    | inr differ ↦ rw differ refl
  ])
  | inr (p, found) ↦ rw (found, get-remove inner session other, text_eq_comm session other) refl
]

module _ (cfg : OsConfig) (now : ℕ) (session : Text) (machine : Machine) (sh : Shell) where
  get-answer_typed :
      (d : OsDecision) (bin : Text) (args : List Text) (other : Text)
      → get (answer_typed d cfg now session bin args machine sh).1.parked other ≡ (
          if text_eq session other
          then (if is_confirmed d
              then some (record { bin = bin; args = args; asked_at = now })
              else get sh.parked other)
          else get sh.parked other)
  unfolding park
  get-answer_typed denied bin args other = ground arith
  get-answer_typed confirmed bin args other =
      get-insert sh.parked session other (record { bin = bin; args = args; asked_at = now })
  get-answer_typed allowed bin args other =
      ap (λ m. get m other) (run_allowed-parked cfg machine sh bin args refusal_typed)
      ∙ ground arith

  get-typed_line :
      (o : Option Command) (other : Text)
      → get (typed_line o cfg now session machine sh).1.parked other ≡ (
          if text_eq session other
          then asked_of o cfg now (get sh.parked other)
          else get sh.parked other)
  unfolding handle_typed_command
  get-typed_line none other = ground arith
  get-typed_line (some (bin, args)) other = get-answer_typed (decide cfg bin args) bin args other

  get-handle_confirmation :
      (other : Text)
      → get (handle_confirmation cfg now session machine sh).1.parked other
        ≡ (if text_eq session other then none else get sh.parked other)
  unfolding handle_confirmation
  get-handle_confirmation other =
      ap (λ m. get m other)
        (run_taken-parked cfg machine
          (record sh { parked = (take_parked session cfg.confirm_ttl_seconds now sh.parked).1 })
          (take_parked session cfg.confirm_ttl_seconds now sh.parked).0)
      ∙ get-take_parked session cfg.confirm_ttl_seconds now sh.parked other

get-handle_message :
    (cfg : OsConfig) (now : ℕ) (session text : Text) (machine : Machine) (sh : Shell) (other : Text)
    → get (handle_message cfg now session text machine sh).1.parked other ≡ (
        if text_eq session other
        then (if is_confirmation text
            then none
            else asked_of (parse_bang text) cfg now (get sh.parked other))
        else get sh.parked other)
unfolding handle_message
get-handle_message cfg now session text machine sh other =
    elim (Bool-cases (is_confirmation text)) [
      | inl yes_it ↦ rw yes_it (get-handle_confirmation cfg now session machine sh other)
      | inr line ↦ rw line (get-typed_line cfg now session machine sh (parse_bang text) other)
    ]

get-respond :
    (r : Request) (cfg : OsConfig) (now : ℕ) (machine : Machine) (sh : Shell) (session : Text)
    → get (respond r cfg now machine sh).parked session
      ≡ ask_of r cfg now session (get sh.parked session)
get-respond (called tool bin args) cfg now machine sh session =
    ap (λ m. get m session) (call_os-parked cfg machine sh tool bin args)
get-respond (said session' text) cfg now machine sh session =
    get-handle_message cfg now session' text machine sh session

-- After any lines and calls, the command that waits in a conversation is the one that its history
-- alone says: the last one asked about, unless a `!!` of this conversation came since.
pub parked-last_ask :
    (h : History) (session : Text) → get (serve h).parked session ≡ last_ask h session
unfolding serve last_ask get
parked-last_ask [] session = refl
parked-last_ask (e ∷ earlier) session =
    get-respond e.request e.cfg e.now e.machine (serve earlier) session
    ∙ ap (ask_of e.request e.cfg e.now session) (parked-last_ask earlier session)
