-- ===== src/Inbound/Gates.antt =====
-- Who gets what from screening.
use dotagent.Common.{
  ℕ, ◌≡◌, refl, inl, inr, true, false, not, ◌&&◌, ◌||◌, Option, none, some, List, arith, Bool-cases,
}
use dotagent.Common.Text.{Text, codes, text_eq}
use dotagent.Chats.Sent.{SentMessages}
use dotagent.Chats.Threads.{ThreadSessions}
use dotagent.Os.Bang.{parse_bang, is_confirmation}
use dotagent.Inbound.Limiter.{RateLimiter, check_at}
use dotagent.Inbound.Screen.{
  InboundMessage, TelegramIngressConfig, Catalog, Screened, run, answer, bang, confirm, reset,
  reject, session_key, allows, is_open_chat, parse_invocation, unresolved, screen_named,
  screen_command, screen_line, screen_text, screen,
}

-- A typed command and a `!!` are for a listed user only, and are what the text says; whatever else
-- is not a refusal is for a listed user or a member of an open group, and its text is neither.
abbrev pub Entitled : TelegramIngressConfig → InboundMessage → Screened → Type 0
Entitled cfg msg (bang bin args session) =
    (allows cfg msg.user_id ≡ true)
    × (is_confirmation msg.text ≡ false)
    × (parse_bang msg.text ≡ some (bin, args))
Entitled cfg msg (confirm session) =
    (allows cfg msg.user_id ≡ true) × (is_confirmation msg.text ≡ true)
Entitled cfg msg (reject reason) = Unit
Entitled cfg msg (run r) =
    ((allows cfg msg.user_id || is_open_chat cfg msg) ≡ true)
    × (is_confirmation msg.text ≡ false)
    × (parse_bang msg.text ≡ none)
Entitled cfg msg (answer text) =
    ((allows cfg msg.user_id || is_open_chat cfg msg) ≡ true)
    × (is_confirmation msg.text ≡ false)
    × (parse_bang msg.text ≡ none)
Entitled cfg msg (reset session) =
    ((allows cfg msg.user_id || is_open_chat cfg msg) ≡ true)
    × (is_confirmation msg.text ≡ false)
    × (parse_bang msg.text ≡ none)

module _ (msg : InboundMessage) (cfg : TelegramIngressConfig) (catalog : Catalog)
    (store : SentMessages) where
  module _ (let_in : (allows cfg msg.user_id || is_open_chat cfg msg) ≡ true)
      (other : is_confirmation msg.text ≡ false) (session : Text) where
    unresolved-Entitled :
        (name : Text)
        → parse_bang msg.text ≡ none
        → Entitled cfg msg (unresolved name catalog session)
    unresolved-Entitled name plain = elim (Bool-cases (text_eq name (codes "help"))) [
      | inl h ↦ rw h (let_in, other, plain)
      | inr h ↦ elim (Bool-cases (text_eq name (codes "novo") || text_eq name (codes "new"))) [
        | inl n ↦ rw (h, n) (let_in, other, plain)
        | inr n ↦ rw (h, n) (let_in, other, plain)
      ]
    ]

    screen_named-Entitled :
        (found : Option Text) (name args : Text)
        → parse_bang msg.text ≡ none
        → Entitled cfg msg (screen_named found name args msg cfg catalog store session)
    screen_named-Entitled none name args plain = unresolved-Entitled name plain
    screen_named-Entitled (some f) name args plain = (let_in, other, plain)

    screen_command-Entitled :
        (o : Option (Text × Text))
        → parse_bang msg.text ≡ none
        → Entitled cfg msg (screen_command o msg cfg catalog store session)
    screen_command-Entitled none plain = (let_in, other, plain)
    screen_command-Entitled (some (name, args)) plain =
        screen_named-Entitled (catalog.resolved_name name) name args plain

    screen_line-Entitled :
        (o : Option (Text × List Text))
        → parse_bang msg.text ≡ o
        → Entitled cfg msg (screen_line o (allows cfg msg.user_id) msg cfg catalog store session)
    screen_line-Entitled none plain = screen_command-Entitled (parse_invocation msg.text) plain
    screen_line-Entitled (some (bin, args)) typed = elim (Bool-cases (allows cfg msg.user_id)) [
      | inl a ↦ rw a (a, other, typed)
      | inr a ↦ rw a tt
    ]

  screen_text-Entitled :
      (session : Text)
      → (allows cfg msg.user_id || is_open_chat cfg msg) ≡ true
      → Entitled cfg msg (screen_text (allows cfg msg.user_id) msg cfg catalog store session)
  screen_text-Entitled session let_in = elim (Bool-cases (is_confirmation msg.text)) [
    | inl c ↦ elim (Bool-cases (allows cfg msg.user_id)) [
      | inl a ↦ rw (c, a) (a, c)
      | inr a ↦ rw (c, a) tt
    ]
    | inr c ↦ rw c (screen_line-Entitled let_in c session (parse_bang msg.text) refl)
  ]

-- Whatever a message gets from screening, its sender is entitled to it: only a listed user runs or
-- confirms a command, and only a listed user or a member of an open group gets anything but a
-- refusal.
pub screen-Entitled :
    (msg : InboundMessage) (cfg : TelegramIngressConfig) (catalog : Catalog) (store : SentMessages)
    (now now_epoch : ℕ) (limiter : RateLimiter) (threads : ThreadSessions)
    → Entitled cfg msg (screen msg cfg catalog store now now_epoch limiter threads).0
unfolding screen
screen-Entitled msg cfg catalog store now now_epoch limiter threads =
    elim (Bool-cases (not (allows cfg msg.user_id) && not (is_open_chat cfg msg))) [
      | inl out ↦ rw out tt
      | inr inside ↦ elim (Bool-cases (not (check_at msg.user_id now limiter).0)) [
        | inl full ↦ rw (inside, full) tt
        | inr passes ↦
            rw (inside, passes)
              (screen_text-Entitled msg cfg catalog store (session_key msg now_epoch threads).0
                (ground arith))
      ]
    ]
