-- ===== src/Os/Serve/Grounds.antt =====
-- Why a process was started.
use dotagent.Common.{◌-◌, ◌*◌, ◌≤◌, ◌≡◌, ◌≢◌, true, some, List, ◌∷◌}
use dotagent.Common.Text.{Text}
use dotagent.Os.Policy.{allowed, denied, decide}
use dotagent.Os.Bang.{is_confirmation}
use dotagent.Os.Commands.{Command, Pending}
use dotagent.Os.Serve.{History, Event, said, last_ask}

-- What an event after a history may start. A line or a call starts a command that the policy allows
-- without a question; a `!!` starts the command its conversation was last asked about, not answered
-- and not older than the limit, if the policy still does not deny it.
pub data Grounds (e : Event) (earlier : History) (bin : Text) (args : List Text) : Type 0 where
  unasked : decide e.cfg bin args ≡ allowed → Grounds e earlier bin args
  answered :
      (session text : Text) (p : Pending)
      → e.request ≡ said session text
      → is_confirmation text ≡ true
      → last_ask earlier session ≡ some p
      → (bin ≡ p.bin) × (args ≡ p.args)
      → e.now - p.asked_at ≤ e.cfg.confirm_ttl_seconds * 1000000000
      → decide e.cfg bin args ≢ denied
      → Grounds e earlier bin args

-- some event of the history had the grounds for it
pub data Justified (c : Command) : History → Type 0 where
  by_last : {e : Event} {earlier : History} → Grounds e earlier c.0 c.1 → Justified c (e ∷ earlier)
  by_earlier : {e : Event} {earlier : History} → Justified c earlier → Justified c (e ∷ earlier)
