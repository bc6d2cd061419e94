-- ===== src/Tests/Screening.antt =====
-- Screening of concrete messages.
use dotagent.Common.{ℕ, ◌≤◌, ◌≡◌, refl, none, some, List, [], ◌∷◌, arith}
use dotagent.Common.Int.{ℤ, pos, negsuc}
use dotagent.Common.Text.{Text, codes, is_whitespace, trim, trim_start, trim_end, decimal}
use dotagent.Os.Bang.{parse_bang, split_tokens, is_confirmation}
use dotagent.Inbound.Limiter.{new_limiter, check_at}
use dotagent.Inbound.Screen.{
  InboundMessage, TelegramIngressConfig, Catalog, Screened, bang, reset, parse_invocation,
  session_key, screen,
}
use dotagent.Inbound.Gates.{Entitled, screen-Entitled}
use dotagent.Inbound.Rate.{serve_all, within_minute, admitted, admitted-le}

abbrev listed : TelegramIngressConfig
listed = record {
  allowed_user_ids = pos 42 ∷ [];
  open_chat_ids = negsuc 99 ∷ [];
  dispatcher_agent = codes "assistant";
}

abbrev nothing_installed : Catalog
nothing_installed = record {
  resolved_name = λ name. none;
  help_text = codes "No commands installed.";
  unknown_command_text = λ name. codes "No such command.";
}

abbrev from : ℤ → Text → InboundMessage
from user text = record {
  user_id = user;
  chat_id = pos 42;
  message_id = pos 7;
  text = text;
  chat_type = codes "private";
  message_thread_id = none;
  reply_to_text = none;
  reply_to_message_id = none;
}

a_group_command :
    parse_invocation (codes " /fix@some_bot  the build ") ≡ some (codes "fix", codes "the build")
unfolding parse_invocation is_whitespace trim trim_start trim_end
a_group_command = refl

abbrev screened : ℤ → Text → Screened
screened user text = (screen (from user text) listed nothing_installed [] 0 0 (new_limiter 2) []).0

a_bang : screened (pos 42) (codes "!ls -la") ≡ bang (codes "ls") (codes "-la" ∷ []) (codes "42")
unfolding screen check_at session_key parse_bang split_tokens is_confirmation is_whitespace trim
    trim_start trim_end decimal
a_bang = refl

a_reset : screened (pos 42) (codes "/novo") ≡ reset (codes "42")
unfolding screen check_at session_key parse_bang split_tokens is_confirmation is_whitespace trim
    trim_start trim_end decimal parse_invocation
a_reset = refl

screen-Entitled_example :
    Entitled listed (from (pos 42) (codes "!ls")) (screened (pos 42) (codes "!ls"))
screen-Entitled_example =
    screen-Entitled (from (pos 42) (codes "!ls")) listed nothing_installed [] 0 0 (new_limiter 2) []

abbrev burst : List (ℤ × ℕ)
burst = (pos 1, 9) ∷ (pos 1, 8) ∷ (pos 2, 8) ∷ (pos 1, 5) ∷ []

two_of_three : admitted 2 burst ≡ (pos 1, 8) ∷ (pos 2, 8) ∷ (pos 1, 5) ∷ []
unfolding admitted serve_all check_at
two_of_three = refl

admitted-le_example : within_minute 9 (pos 1) (admitted 2 burst) ≤ 2
admitted-le_example =
    admitted-le 2 burst (pos 1) 9 (omega arith)
      (omega arith, (omega arith, (omega arith, (omega arith, tt)))) (omega arith)
