-- ===== src/Os/Serve/Runs.antt =====
-- When the handlers run a command, for any predicate on what they leave.
use dotagent.Common.{◌≡◌, ◌≢◌, refl, ap, inl, inr, false, List, ◌∷◌, Bool-cases, Option-cases}
use dotagent.Common.Text.{Text, codes, text_eq}
use dotagent.Common.Text.Lines.{join_with}
use dotagent.Os.Texts.{refusal, spaced}
use dotagent.Os.Policy.{OsConfig, OsDecision, argv, allowed, confirmed, denied, decide}
use dotagent.Os.Commands.{
  Machine, Ending, Shell, is_denied, is_confirmed, after_end, run_allowed, run_called, find_tool,
  os_named_tool, os_run, call_os,
}

pub not_denied : (d : OsDecision) → is_denied d ≡ false → d ≢ denied
not_denied d off e = cc (off, ap is_denied e)

pub only_allowed : (d : OsDecision) → is_denied d ≡ false → is_confirmed d ≡ false → d ≡ allowed
only_allowed allowed x y = refl
only_allowed confirmed x y = absurd (cc y)
only_allowed denied x y = absurd (cc x)

module _ {ℓ} (cfg : OsConfig) (machine : Machine) (sh : Shell) (P : Shell → Type ℓ)
    (keep : P sh) where
  pub run_allowed-runs :
      (bin : Text) (args : List Text) (refused : Text → Text)
      → ((end : Ending)
          → is_denied (decide cfg bin args) ≡ false
          → P (after_end machine bin args end sh))
      → P (run_allowed cfg bin args refused machine sh).1
  unfolding run_allowed
  run_allowed-runs bin args refused runs = elim (Bool-cases (is_denied (decide cfg bin args))) [
    | inl d ↦ rw d keep
    | inr d ↦ rw d (runs (machine.ends bin args cfg.timeout_seconds) d)
  ]

  module _
      (runs : (bin : Text) (args : List Text) (end : Ending)
        → decide cfg bin args ≡ allowed
        → P (after_end machine bin args end sh)) where
    run_called-runs :
        (bin : Text) (args : List Text) (shown : Text)
        → P (run_called cfg bin args shown machine sh).1
    run_called-runs bin args shown = elim (Bool-cases (is_confirmed (decide cfg bin args))) [
      | inl c ↦ rw c keep
      | inr c ↦ rw c (
          run_allowed-runs bin args refusal
            (λ end d. runs bin args end (only_allowed (decide cfg bin args) d c)))
    ]

    pub call_os-runs :
        (tool bin : Text) (args : List Text) → P (call_os cfg tool bin args machine sh).1
    unfolding call_os os_run os_named_tool
    call_os-runs tool bin args = elim (Bool-cases (text_eq tool (codes "os-list"))) [
      | inl l ↦ rw l keep
      | inr l ↦ elim (Bool-cases (text_eq tool (codes "os-run"))) [
        | inl r ↦ rw (l, r) (run_called-runs bin args (spaced args))
        | inr r ↦ elim (Option-cases (find_tool cfg.tools tool)) [
          | inl n ↦ rw (l, r, n) keep
          | inr (t, found) ↦
              let extra = argv t args in
              rw (l, r, found) (run_called-runs t.bin extra (32 ∷ join_with (codes " ") extra))
        ]
      ]
    ]
