-- ===== src/Lib.antt =====
-- A model of dotagent, the supervisor of scheduled agents, and what is proved of it.
--
-- dotagent runs agents on schedules. A daemon wakes up, asks the scheduler which window of each
-- schedule is due, dispatches the run if no gate holds it back, records the attempt in the window's
-- file, retries with backoff, gives up, and alerts its owner when a schedule stops working.
--
--   * Manifest, Scheduler: crates/dotagent-core/src/manifest.rs, heartbeat.rs and state.rs, and
--     crates/dotagent-scheduler/src/lib.rs. A definition has the name of its function. `Windows` is
--     the window that is due, `Upcoming` the next one, `Health` the verdict that status and alerts
--     read, `Policy` retries and staleness.
--   * Power: crates/dotagent-core/src/power.rs and crates/dotagent/src/power.rs; the free function
--     `would_probe`, `PowerGate::new` and `PowerGate::detect` are `would_probe`, `new_gate` and
--     `detect_gate`.
--   * Dispatch: `dispatch_one` and `give_up` of crates/dotagent/src/commands/daemon.rs. The handler
--     is a function from a world (window files, alert episodes, audit log, notices, memos) to a world
--     and the answer whether a run was dispatched. Its early returns are the branches of
--     `dispatch_one`, `consider`, `due_window` and `attempt`, in this order.
--   * Alerts: crates/dotagent-state/src/notify_dedup.rs (`Dedup`; the free function
--     `should_notify` is `may_speak`), the texts and the sweep of the daemon (`Message`, `Sweep`).
--   * Wakeups: the summary and retention windows and `compute_sleep_target` of daemon.rs.
--   * Notify: crates/dotagent-notify/src/limits.rs (`Limits`) and the body of a message of
--     telegram.rs (`Telegram`).
--   * Pool: crates/dotagent-runner/src/persistent.rs. `Frames` is the writing of a frame and what an
--     answer says, `Exchange` one request to a live instance, `Retry` the two attempts of
--     `exchange_with_retry`, `Slots` the map under the allocation lock, `Cells` the map and the cells
--     when calls interleave, `Keys` the key of an instance, `Stderr` the ring. What a
--     process, a pipe and the supervisor do in one attempt is a record (`Probe`, `Pipe`, `Round`).
--   * Audit: crates/dotagent-state/src/audit.rs. A directory is a table of files, a file the list of
--     its bytes. `Tail` is the backward read, `Names` the segments, `Log` the append, with `heal`,
--     `rotate_if_full` and `write_entry` as its parts in this order, and `Verify` the verification:
--     `check_file` is one round of its loop up to the seam, `cross_to` what follows. Proofs are
--     below each.
--   * Retention: crates/dotagent-telemetry/src/retention.rs. `sweep_windows_dir` and `sweep_dir` are
--     runs over the files that a folder held at the start.
--   * Os: the `[os]` section of crates/dotagent-core/src/config.rs (`Policy`),
--     crates/dotagent/src/os_exec.rs (`Bang`, `Texts`, `Commands`), and their callers in daemon.rs
--     and mcp.rs of crates/dotagent/src/commands. `Confirmations::take` is `take_parked`, and the
--     verdicts Allow, Confirm and Deny are `allowed`, `confirmed` and `denied`. `Serve` is a run over
--     the lines and calls that came, each with the configuration and the time it found; how a
--     process ends is the record `Machine`.
--   * Inbound: `RateLimiter` of crates/dotagent-notify/src/telegram_inbound.rs,
--     `parse_invocation` of crates/dotagent-core/src/command.rs, and `screen_with_store` of
--     daemon.rs, which is `screen`. What of a message may start a command goes on in Os.
--   * Slug: `slug_from_args` of crates/dotagent-state/src/lib.rs, with the lower case of a text as an
--     argument.
--   * Memos: crates/dotagent-assistant/src/memo.rs.
--   * Chats: crates/dotagent-state/src/sent_messages.rs (`Sent`) and thread_sessions.rs
--     (`Threads`), with the eviction and the keys that both have.
--   * Common, Time: text as lists of code points, tables in the order of their keys, signed
--     integers, instants in nanoseconds. Tests: concrete runs.
--
-- Parameters. The wall clock of the local zone is the record `Calendar`; what is relied on is
-- `CalendarLaws`, which `Time.utc-laws` shows to hold of a zone without clock changes. The outcome
-- of a run, the times that are read while giving up, the success of a write, the memos, the
-- battery and the files that a sweep reads are arguments. `local_at` of Wakeups is the resolution of
-- a date and a time of day; that the starts of consecutive days come in order is an assumption.
--
-- The crates serde_json and sha2 are the record `Crates`: a printed entry is one line of printable
-- text that starts with a brace, and it is read back. `Tests.Printer` is a printer that has this.
--
-- Bounds. A `u32` counter wraps (`u32`). The search for the next window of a cron schedule goes over
-- the eight days of the source. The squeezing of underscores goes over as many rounds as the text is
-- long, the eviction over at most as many as there are entries, the writing of a frame over at most
-- as many as it has bytes, and `slot_for` over one more than the agent has slots. Printing a number
-- has the number itself as the bound of its digits. The backward read of a log has as many rounds as
-- bytes, and its verification one for each file and one more, which `verify_chain_status-ends` shows
-- to be enough. No other definition needs fuel.
--
-- Not modelled: processes, sockets, files and their locks, the notification services, the command
-- line, the configuration format, and the parts that PROJECT.json lists as such.
pub mod Common
pub mod Time
pub mod Manifest
pub mod Scheduler
pub mod Power
pub mod Alerts
pub mod Audit
pub mod Retention
pub mod Dispatch
pub mod Wakeups
pub mod Pool
pub mod Memos
pub mod Slug
pub mod Notify
pub mod Os
pub mod Inbound
pub mod Chats
pub mod Tests
