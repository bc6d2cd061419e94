-- ===== src/Alerts/Message.antt =====
-- The text of an alert: `human_duration`, `stderr_tail` and `alert_message` of
-- crates/dotagent/src/commands/daemon.rs.
pub mod Tail
use dotagent.Common.{
  ℕ, ◌-◌, ◌/◌, ◌%◌, Bool, Option, none, some, List, [], ◌∷◌, ◌++◌, ltb, leb, if◌then◌else◌,
  unwrap_or, length, drop,
}
use dotagent.Common.Int.{ℤ, pos, negsuc, max_zero, sub_ℕ}
use dotagent.Common.Text.{Text, codes, text_eq, decimal, show_ℤ, trim}
use dotagent.Time.{Instant, num_seconds, timestamp}
use dotagent.Manifest.{WindowState}
use dotagent.Alerts.Dedup.{AlertEpisode}

unfoldable pub human_duration : ℤ → Text
unfolding decimal
human_duration seconds =
    let s = max_zero seconds in
    let d = s / 86400 in
    let h = s % 86400 / 3600 in
    let m = s % 3600 / 60 in
    if ltb 0 d
    then decimal d ++ codes "d " ++ decimal h ++ codes "h"
    else (if ltb 0 h
        then decimal h ++ codes "h " ++ decimal m ++ codes "m"
        else decimal m ++ codes "m")

abbrev pub tail_max : ℕ
tail_max = 400

-- the end of a text that is already trimmed
unfoldable pub tail_of : Text → Text
tail_of [] = []
tail_of (c ∷ s) =
    let raw = c ∷ s in
    if leb (length raw) tail_max
    then codes "\n" ++ raw
    else codes "\n…" ++ drop (length raw - tail_max) raw

abbrev window_stderr : Option WindowState → Text
window_stderr none = []
window_stderr (some w) = unwrap_or w.last_attempt_stderr []

unfoldable pub stderr_tail : Option WindowState → Text
unfolding tail_of trim
stderr_tail window = tail_of (trim (window_stderr window))

abbrev attempts_of : Option WindowState → ℕ
attempts_of none = 0
attempts_of (some w) = w.attempts

abbrev exit_of : Option WindowState → ℤ
exit_of none = negsuc 0
exit_of (some w) = unwrap_or w.last_attempt_exit_code (negsuc 0)

-- the age of the give-up: `now.timestamp() - t` is signed
abbrev since_given_up : Option WindowState → Instant → Text
since_given_up none now = codes "?"
since_given_up (some w) now = elim w.given_up_at [
  | none ↦ codes "?"
  | some t ↦ human_duration (sub_ℕ (timestamp now) t)
]

stale_age : Option Instant → Instant → Text
unfolding human_duration num_seconds
stale_age none now = codes "it has never run successfully"
stale_age (some ls) now = codes "no successful run in " ++ human_duration (num_seconds now ls)

-- the `body`, by the arms of the match
message_body :
    Text → Text → Text → Option Instant → Option WindowState → AlertEpisode → Instant → Text
unfolding stale_age human_duration decimal
message_body event agent schedule last_success window episode now =
    let repeat =
      if ltb 1 episode.count
      then codes " (notice #" ++ decimal episode.count ++ codes ")"
      else [] in
    let name = agent ++ codes "/" ++ schedule in
    let attempts = decimal (attempts_of window) in
    let exit = show_ℤ (exit_of window) in
    if text_eq event (codes "stale")
    then codes "⏰ "
      ++ name
      ++ codes " is not being scheduled — "
      ++ stale_age last_success now
      ++ repeat
      ++ codes "."
    else (if leb episode.count 1
        then codes "🚨 "
          ++ name
          ++ codes " gave up after "
          ++ attempts
          ++ codes " attempts (exit "
          ++ exit
          ++ codes ")"
        else codes "🚨 "
          ++ name
          ++ codes " still given up after "
          ++ attempts
          ++ codes " attempts (exit "
          ++ exit
          ++ codes "), "
          ++ since_given_up window now
          ++ codes " ago"
          ++ repeat
          ++ codes ".")

unfoldable pub alert_message :
    Text → Text → Text → Option Instant → Option WindowState → AlertEpisode → Instant → Text
unfolding message_body stderr_tail
alert_message event agent schedule last_success window episode now =
    message_body event agent schedule last_success window episode now ++ stderr_tail window
