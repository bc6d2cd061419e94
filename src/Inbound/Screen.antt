-- ===== src/Inbound/Screen.antt =====
-- The screening of a message: `parse_invocation` of crates/dotagent-core/src/command.rs, and
-- `session_key` and `screen_with_store` of crates/dotagent/src/commands/daemon.rs.
use dotagent.Common.{
  ℕ, Bool, not, ◌&&◌, ◌||◌, Option, none, some, List, [], ◌∷◌, ◌++◌, ◌==◌, if◌then◌else◌, any,
  unwrap_or,
}
use dotagent.Common.Int.{ℤ, eq_ℤ}
use dotagent.Common.Text.{
  Text, codes, text_eq, show_ℤ, strip_prefix, is_whitespace, trim, trim_start,
}
use dotagent.Common.Text.Lines.{is_empty}
use dotagent.Chats.Sent.{SentMessage, SentMessages}
use dotagent.Chats.Sent
use dotagent.Chats.Threads.{ThreadSessions}
use dotagent.Chats.Threads
use dotagent.Os.Bang.{parse_bang, is_confirmation}
use dotagent.Inbound.Limiter.{RateLimiter, check_at}

pub record InboundMessage : Type 0 where
  pub user_id : ℤ
  pub chat_id : ℤ
  pub message_id : ℤ
  pub text : Text
  pub chat_type : Text
  pub message_thread_id : Option ℤ
  pub reply_to_text : Option Text
  pub reply_to_message_id : Option ℤ

-- the fields of the section that screening reads
pub record TelegramIngressConfig : Type 0 where
  pub allowed_user_ids : List ℤ
  pub open_chat_ids : List ℤ
  pub dispatcher_agent : Text

-- what is installed: the name a typed one resolves to, the answer to `/help` and to an unknown name
pub record Catalog : Type 0 where
  pub resolved_name : Text → Option Text
  pub help_text : Text
  pub unknown_command_text : Text → Text

-- a run for the dispatcher, with the fields of its payload
pub record TriggerRequest : Type 0 where
  pub agent : Text
  pub text : Text
  pub session_id : Text
  pub chat_id : ℤ
  pub user_id : ℤ
  pub message_id : ℤ
  pub chat_type : Text
  pub message_thread_id : Option ℤ
  pub reply_to_text : Option Text
  pub reply_to_run : Option SentMessage
  pub command : Option (Text × Text)
  pub actor : Text
  pub reply_to : Text

pub data Screened : Type 0 where
  run : TriggerRequest → Screened
  answer : Text → Screened
  bang : Text → List Text → Text → Screened
  confirm : Text → Screened
  reset : Text → Screened
  reject : Text → Screened

-- everything up to the first white space, and what follows it
abbrev pub split_head : Text → Text × Text
split_head [] = ([], [])
split_head (c ∷ s) =
    let (head, rest) = split_head s in if is_whitespace c then ([], c ∷ s) else (c ∷ head, rest)

abbrev pub before_at : Text → Text
before_at [] = []
before_at (c ∷ s) = let rest = before_at s in if c == 64 then [] else c ∷ rest

abbrev pub invocation_of : Option Text → Option (Text × Text)
invocation_of none = none
invocation_of (some rest) =
    let (head, args) = split_head rest in
    if is_empty (before_at head) then none else some (before_at head, trim args)

unfoldable pub parse_invocation : Text → Option (Text × Text)
parse_invocation text = invocation_of (strip_prefix (codes "/") (trim_start text))

abbrev pub is_group_chat : Text → Bool
is_group_chat chat_type =
    text_eq chat_type (codes "group") || text_eq chat_type (codes "supergroup")

abbrev pub root_session : ℤ → Option ℤ → ℤ → Text
root_session chat_id (some t) message_id =
    show_ℤ chat_id ++ (codes "-t" ++ (show_ℤ t ++ (codes "-r" ++ show_ℤ message_id)))
root_session chat_id none message_id = show_ℤ chat_id ++ (codes "-r" ++ show_ℤ message_id)

abbrev pub inherited : Option ℤ → Text → ThreadSessions → Option Text
inherited none chat threads = none
inherited (some replied) chat threads = Threads.get_for_chat threads chat replied

-- the conversation of a message, and the thread table with the message bound to it
unfoldable pub session_key : InboundMessage → ℕ → ThreadSessions → Text × ThreadSessions
session_key msg now_epoch threads =
    if not (is_group_chat msg.chat_type)
    then (show_ℤ msg.chat_id, threads)
    else (let chat = show_ℤ msg.chat_id in
        let session =
          unwrap_or (inherited msg.reply_to_message_id chat threads)
            (root_session msg.chat_id msg.message_thread_id msg.message_id) in
        (session, Threads.insert_for_chat threads chat msg.message_id session now_epoch))

abbrev pub allows : TelegramIngressConfig → ℤ → Bool
allows cfg user_id = any (λ u. eq_ℤ u user_id) cfg.allowed_user_ids

abbrev pub is_open_chat : TelegramIngressConfig → InboundMessage → Bool
is_open_chat cfg msg =
    is_group_chat msg.chat_type && any (λ c. eq_ℤ c msg.chat_id) cfg.open_chat_ids

abbrev reply_run : Option ℤ → Text → SentMessages → Option SentMessage
reply_run none chat store = none
reply_run (some id) chat store = Sent.get_for_chat store chat id

abbrev pub run_request :
    InboundMessage → TelegramIngressConfig → SentMessages → Text → Option (Text × Text) → Screened
run_request msg cfg store session command = run (record {
  agent = cfg.dispatcher_agent;
  text = msg.text;
  session_id = session;
  chat_id = msg.chat_id;
  user_id = msg.user_id;
  message_id = msg.message_id;
  chat_type = msg.chat_type;
  message_thread_id = msg.message_thread_id;
  reply_to_text = msg.reply_to_text;
  reply_to_run = reply_run msg.reply_to_message_id (show_ℤ msg.chat_id) store;
  command = command;
  actor = show_ℤ msg.user_id;
  reply_to = show_ℤ msg.chat_id;
})

abbrev pub unresolved : Text → Catalog → Text → Screened
unresolved name catalog session =
    if text_eq name (codes "help")
    then answer catalog.help_text
    else (if text_eq name (codes "novo") || text_eq name (codes "new")
        then reset session
        else answer (catalog.unknown_command_text name))

abbrev pub screen_named :
    Option Text
    → Text
    → Text
    → InboundMessage
    → TelegramIngressConfig
    → Catalog
    → SentMessages
    → Text
    → Screened
screen_named none name args msg cfg catalog store session = unresolved name catalog session
screen_named (some found) name args msg cfg catalog store session =
    run_request msg cfg store session (some (found, args))

abbrev pub screen_command :
    Option (Text × Text)
    → InboundMessage
    → TelegramIngressConfig
    → Catalog
    → SentMessages
    → Text
    → Screened
screen_command none msg cfg catalog store session = run_request msg cfg store session none
screen_command (some (name, args)) msg cfg catalog store session =
    screen_named (catalog.resolved_name name) name args msg cfg catalog store session

abbrev pub screen_line :
    Option (Text × List Text)
    → Bool
    → InboundMessage
    → TelegramIngressConfig
    → Catalog
    → SentMessages
    → Text
    → Screened
screen_line none owner msg cfg catalog store session =
    screen_command (parse_invocation msg.text) msg cfg catalog store session
screen_line (some (bin, args)) owner msg cfg catalog store session =
    if not owner
    then reject (codes "! lines need an allowlisted user, even in an open chat")
    else bang bin args session

-- what a message that came through does in its conversation
abbrev pub screen_text :
    Bool → InboundMessage → TelegramIngressConfig → Catalog → SentMessages → Text → Screened
screen_text owner msg cfg catalog store session =
    if is_confirmation msg.text
    then (if not owner
        then reject (codes "!! needs an allowlisted user, even in an open chat")
        else confirm session)
    else screen_line (parse_bang msg.text) owner msg cfg catalog store session

-- `screen_with_store`; `now` and `now_epoch` are the two clocks it reads
unfoldable pub screen :
    InboundMessage
    → TelegramIngressConfig
    → Catalog
    → SentMessages
    → ℕ
    → ℕ
    → RateLimiter
    → ThreadSessions
    → Screened × RateLimiter × ThreadSessions
screen msg cfg catalog store now now_epoch limiter threads =
    let owner = allows cfg msg.user_id in
    if not owner && not (is_open_chat cfg msg)
    then (reject (codes "user id not in allowed_user_ids"), limiter, threads)
    else (let (passes, limiter') = check_at msg.user_id now limiter in
        if not passes
        then (reject (codes "rate limit exceeded"), limiter', threads)
        else (let (session, threads') = session_key msg now_epoch threads in
            (screen_text owner msg cfg catalog store session, limiter', threads')))
