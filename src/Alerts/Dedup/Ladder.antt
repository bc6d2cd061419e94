-- ===== src/Alerts/Dedup/Ladder.antt =====
-- How often one alert speaks while its condition holds.
use dotagent.Common.{ℕ, zero, suc, ◌+◌, ◌*◌, ◌≤◌, ◌≡◌, true, Option, none, some, List, [], ◌∷◌}
use dotagent.Common.Text.{Text}
use dotagent.Common.Table
use dotagent.Alerts.Dedup.{AlertEpisode, NotifyDedup, alert_key, claim_alert}

-- the least time from the first to the n-th notification
abbrev pub spent : ℕ → ℕ
spent zero = 0
spent (suc zero) = 0
spent (suc (suc zero)) = 3600
spent (suc (suc (suc n))) = 25200 + n * 86400

-- `n` notifications went out from `t0` on, the last no later than `t`
abbrev Paced : Option AlertEpisode → ℕ → ℕ → ℕ → Type 0
Paced none n t0 t = (n ≡ 0) × (t0 ≤ t)
Paced (some e) n t0 t =
    (e.count ≡ n)
    × (1 ≤ n)
    × (t0 ≤ e.first_notified_at)
    × (e.first_notified_at + spent n ≤ e.last_notified_at)
    × (e.last_notified_at ≤ t)

-- before this time (some six million years on) the 32-bit counter of an episode cannot wrap
abbrev pub horizon : ℕ
horizon = 86400 * 2147483648

abbrev sent : Option AlertEpisode → ℕ → ℕ
sent none n = n
sent (some e) n = suc n

-- One alert asked for at each of the ticks: how many notifications go out, after `n`.
unfoldable pub announce : NotifyDedup → Text → Text → Text → ℕ → List ℕ → ℕ
announce table agent schedule event n [] = n
announce table agent schedule event n (now ∷ ticks) =
    let (table', spoke) = claim_alert table true agent schedule event now in
    announce table' agent schedule event (sent spoke n) ticks

-- the ticks come in order, from `lo` to `hi`
abbrev pub Within : ℕ → ℕ → List ℕ → Type 0
Within lo hi [] = lo ≤ hi
Within lo hi (t ∷ ts) = (lo ≤ t) × Within t hi ts

module _ (agent schedule event : Text) where
  abbrev key : Text
  key = alert_key agent schedule event
