-- ===== src/Alerts/Message/Tail.antt =====
-- What of an agent's output reaches an alert.
use dotagent.Common.{◌+◌, ◌-◌, ◌≤◌, [], ◌∷◌, arith, length, length-drop}
use dotagent.Common.Text.{Text}
use dotagent.Alerts.Message.{tail_of, tail_max}

-- The tail of a text has at most 402 characters, its mark included.
pub tail_of-bounded : (raw : Text) → length (tail_of raw) ≤ tail_max + 2
unfolding tail_of
tail_of-bounded [] = omega arith
tail_of-bounded (c ∷ s) = ground (arith, length-drop (length (c ∷ s) - tail_max) (c ∷ s))
