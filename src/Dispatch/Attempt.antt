-- ===== src/Dispatch/Attempt.antt =====
-- One attempt at a window: `dispatch_one` from the reading of the window file on, and `give_up`.
pub mod Budget
pub mod Endings
use dotagent.Common.{
  ℕ, ◌+◌, Bool, true, false, not, ◌&&◌, Option, none, some, List, [], ◌∷◌, ◌++◌, ltb, leb, ◌==◌,
  if◌then◌else◌, unwrap_or, u32,
}
use dotagent.Common.Int.{ℤ, pos, negsuc}
use dotagent.Common.Text.{Text, codes, text_eq, decimal}
use dotagent.Time.{Instant, Calendar, timestamp, from_timestamp}
use dotagent.Manifest.{Schedule, WindowState, AgentManifest, schedule_id}
use dotagent.Scheduler.Policy.{ResolvedPolicy, should_retry}
use dotagent.Alerts.Dedup.{NotifyDedup, AlertEpisode, claim_alert}
use dotagent.Alerts.Message.{alert_message}

-- how `run_with_hooks` ends: a run with its exit code, stderr tail and stdout tail; a preflight
-- plugin that failed; a request whose answer was lost, with the message; another error
pub data RunResult : Type 0 where
  ran : ℤ → Text → Text → RunResult
  preflight_failed : Text → RunResult
  request_lost : Text → RunResult
  run_error : RunResult

-- agent, schedule, attempts, last exit, stderr tail; agent, schedule, attempts
pub data AuditEvent : Type 0 where
  agent_given_up : Text → Text → ℕ → ℤ → Text → AuditEvent
  agent_recovered : Text → Text → ℕ → AuditEvent

-- a call of `fire_on_failure_event`: agent, schedule, event, message
pub data Notice : Type 0 where
  notice : Text → Text → Text → Text → Notice

-- what the handler reads and writes: the window files by agent, slug and label, the alert episodes,
-- the audit log, the notices sent, and the memos flushed to the memory store
pub record World : Type 0 where
  pub windows : Text → Text → ℕ → Option WindowState
  pub alerts : NotifyDedup
  pub audit : List AuditEvent
  pub notices : List Notice
  pub flushed : List (List Text)

-- What the surroundings decide in one call: how the run ends, the two times that `give_up` reads, and
-- whether the writes of the window file and of the alert table succeed; the memos that
-- `memory_capture` takes from the output, and what `memory_extract` and `merge` make of them where
-- the manifest has an extractor.
pub record Env : Type 0 where
  pub result : RunResult
  pub clock : Instant
  pub notify_clock : Instant
  pub window_saved : Bool
  pub alerts_saved : Bool
  pub memos : List Text
  pub extracted : Option (List Text)

abbrev update_window :
    (Text → Text → ℕ → Option WindowState)
    → Text
    → Text
    → ℕ
    → WindowState
    → Text
    → Text
    → ℕ
    → Option WindowState
update_window files name slug label ws name' slug' label' =
    if text_eq name name' && (text_eq slug slug' && label == label')
    then some ws
    else files name' slug' label'

-- `state.write_window`; a write that fails is logged and leaves the file
abbrev write_window : Bool → Text → Text → ℕ → WindowState → World → World
write_window true name slug label ws w = record w {
  windows = update_window w.windows name slug label ws;
}
write_window false name slug label ws w = w

abbrev send : Text → Text → Text → Text → World → World
send agent schedule event message w = record w {
  notices = w.notices ++ notice agent schedule event message ∷ [];
}

abbrev append_audit : AuditEvent → World → World
append_audit e w = record w { audit = w.audit ++ e ∷ [] }

-- the alert of a give-up, if the ladder lets it speak
send_given_up : Option AlertEpisode → Text → Text → WindowState → Instant → World → World
send_given_up none name sched window now w = w
send_given_up (some episode) name sched window now w =
    send name sched (codes "given_up")
      (alert_message (codes "given_up") name sched none (some window) episode now) w

abbrev mark_given_up : WindowState → Instant → WindowState
mark_given_up window clock = record window { given_up = true; given_up_at = some (timestamp clock) }

unfoldable pub give_up : Text → Text → Text → ℕ → WindowState → Env → World → World
unfolding send_given_up
give_up name sched slug label window env w =
    let marked = mark_given_up window env.clock in
    let event =
      agent_given_up name sched marked.attempts (unwrap_or marked.last_attempt_exit_code (negsuc 0))
        (unwrap_or marked.last_attempt_stderr []) in
    let w1 = append_audit event w in
    let (alerts, episode) =
      claim_alert w1.alerts env.alerts_saved name sched (codes "given_up")
        (timestamp env.notify_clock) in
    let w2 = record w1 { alerts = alerts } in
    let w3 = send_given_up episode name sched marked env.notify_clock w2 in
    write_window env.window_saved window.agent slug label marked w3

abbrev pub succeeded : ℤ → Bool
succeeded (pos n) = n == 0
succeeded (negsuc n) = false

abbrev flush : List Text → World → World
flush memos w = record w { flushed = w.flushed ++ memos ∷ [] }

-- what the run volunteered, if anything
abbrev flush_volunteered : List Text → World → World
flush_volunteered [] w = w
flush_volunteered (m ∷ ms) w = flush (m ∷ ms) w

abbrev flush_extracted : Option (List Text) → List Text → World → World
flush_extracted none memos w = flush_volunteered memos w
flush_extracted (some merged) memos w = flush merged w

-- the memory writes after a run: an extractor is asked only after a success
flush_memos : ℤ → Env → World → World
flush_memos exit env w =
    if succeeded exit
    then flush_extracted env.extracted env.memos w
    else flush_volunteered env.memos w

-- the window after an attempt: its number, its time, how it ended
abbrev attempted : WindowState → Instant → ℤ → Text → WindowState
attempted window now exit stderr = record window {
  attempts = u32 (window.attempts + 1);
  last_attempt_at = some (timestamp now);
  last_attempt_exit_code = some exit;
  last_attempt_stderr = some stderr;
}

recovered_message : Text → ℕ → Text
recovered_message name attempts =
    codes "agent " ++ name ++ codes " recovered on attempt " ++ decimal attempts

-- what `Ran` leads to: a recovery is announced, the last failure gives the window up, and
-- otherwise the window is written
finish_run :
    ℤ → Text → Text → Text → ResolvedPolicy → ℕ → ℕ → WindowState → Env → World → Bool × World
unfolding recovered_message give_up
finish_run exit name sched slug policy label attempts_before window env w =
    let recovered =
      send name sched (codes "recovered") (recovered_message name window.attempts)
        (append_audit (agent_recovered name sched window.attempts) w) in
    if succeeded exit && ltb 0 attempts_before
    then (true, write_window env.window_saved window.agent slug label window recovered)
    else (if not (succeeded exit) && leb policy.max_retries window.attempts
        then (true, give_up name sched slug label window env w)
        else (true, write_window env.window_saved window.agent slug label window w))

-- the run, and the update of the window by its outcome
run_attempt :
    RunResult
    → Text
    → Text
    → Text
    → ResolvedPolicy
    → ℕ
    → WindowState
    → Env
    → Instant
    → World
    → Bool × World
unfolding finish_run flush_memos give_up
run_attempt (ran exit stderr stdout) name sched slug policy label window env now w =
    finish_run exit name sched slug policy label window.attempts (attempted window now exit stderr)
      env (flush_memos exit env w)
run_attempt (preflight_failed plugin) name sched slug policy label window env now w =
    let window' =
      attempted window now (negsuc 0) (codes "preflight " ++ plugin ++ codes " failed") in
    (true, write_window env.window_saved window'.agent slug label window' w)
run_attempt (request_lost message) name sched slug policy label window env now w =
    let window' = attempted window now (negsuc 0) message in
    let w1 = send name sched (codes "attempt_failed") message w in
    (true, give_up name sched slug label window' env w1)
run_attempt run_error name sched slug policy label window env now w = (false, w)

-- the window of a schedule that has no file yet
abbrev fresh_window : Text → Text → Instant → WindowState
fresh_window name sched expected = record {
  agent = name;
  schedule_id = sched;
  expected_at = timestamp expected;
  attempts = 0;
  last_attempt_at = none;
  last_attempt_exit_code = none;
  last_attempt_stderr = none;
  given_up = false;
  given_up_at = none;
}

abbrev last_attempt : WindowState → Option Instant
last_attempt window = elim window.last_attempt_at [ none ↦ none | some t ↦ some (from_timestamp t) ]

-- the gates between the window and the run
attempt :
    WindowState → Text → Text → Text → ResolvedPolicy → ℕ → Env → Instant → World → Bool × World
unfolding run_attempt
attempt window name sched slug policy label env now w =
    if window.given_up
    then (false, w)
    else (if not
          (should_retry window.attempts (last_attempt window) policy.retry_backoff_minutes now)
        then (false, w)
        else (if leb policy.max_retries window.attempts
            then (false, give_up name sched slug label window env w)
            else run_attempt env.result name sched slug policy label window env now w))

-- `dispatch_one` from the reading of the window file on
unfoldable pub try_window :
    Calendar
    → AgentManifest
    → Schedule
    → Text
    → ResolvedPolicy
    → Instant
    → Env
    → Instant
    → World
    → Bool × World
unfolding attempt schedule_id
try_window cal agent sched slug policy expected env now w =
    let label = cal.label expected in
    let window =
      unwrap_or (w.windows agent.name slug label)
        (fresh_window agent.name (schedule_id sched) expected) in
    attempt window agent.name (schedule_id sched) slug policy label env now w
