-- ===== src/Tests/Messaging.antt =====
-- Messages and their tables on concrete texts.
use dotagent.Common.{ℕ, ◌≤◌, ◌≡◌, refl, false, none, some, [], ◌∷◌}
use dotagent.Common.Text.{codes}
use dotagent.Common.Table
use dotagent.Common.Table.Ordered.{IsOrdered}
use dotagent.Notify.Limits.{ellipsis_notice, truncate_bytes}
use dotagent.Notify.Telegram.{markdown_v2, escape_markdown_v2, render_body}
use dotagent.Notify.Telegram.Escapes.{scan, scan-render_body}
use dotagent.Chats.Eviction.{evict_oldest}
use dotagent.Chats.Eviction.Oldest.{evict_oldest-oldest_first}
use dotagent.Chats.Sent
use dotagent.Chats.Sent.{SentMessage, SentMessages}

-- the cut is walked back over half a letter
cut_bytes : truncate_bytes (codes "ação") 5 ellipsis_notice ≡ codes "a…"
unfolding truncate_bytes
cut_bytes = refl

scan-render_body_example :
    scan false (render_body (codes "1 + 1 = 2.") (some markdown_v2)) ≡ some false
scan-render_body_example = scan-render_body (codes "1 + 1 = 2.")

escaped : escape_markdown_v2 (codes "a_b.") ≡ codes "a\\_b\\."
unfolding escape_markdown_v2
escaped = refl

-- three entries by their times
abbrev three : Table.Table ℕ
three = (codes "a", 5) ∷ (codes "b", 3) ∷ (codes "c", 9) ∷ []

three-IsOrdered : IsOrdered three
three-IsOrdered = ((refl, (refl, tt)), ((refl, tt), (tt, tt)))

evict_oldest-oldest_first_example : 3 ≤ 5
unfolding evict_oldest Table.get Table.remove
evict_oldest-oldest_first_example =
    evict_oldest-oldest_first (λ t. t) 2 three (codes "b") (codes "a") 3 5 three-IsOrdered refl refl
      refl

abbrev notice : SentMessage
notice = record {
  chat_id = none;
  agent = codes "briefing";
  schedule = codes "hourly";
  event = codes "given_up";
  at = 7;
}
