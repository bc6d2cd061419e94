-- ===== src/Inbound/Limiter.antt =====
-- `RateLimiter` of crates/dotagent-notify/src/telegram_inbound.rs.
use dotagent.Common.{
  ℕ, ◌-◌, Bool, true, false, List, [], ◌∷◌, ◌++◌, ltb, leb, if◌then◌else◌, length, retain, u32,
}
use dotagent.Common.Int.{ℤ, eq_ℤ}

-- the time of a hit in nanoseconds
pub record RateLimiter : Type 0 where
  pub per_minute : ℕ
  pub hits : List (ℤ × ℕ)

abbrev pub new_limiter : ℕ → RateLimiter
new_limiter per_minute = record { per_minute = per_minute; hits = [] }

abbrev pub rate_window : ℕ
rate_window = 60000000000

abbrev pub recent : ℕ → List (ℤ × ℕ) → List (ℤ × ℕ)
recent now hits = retain (λ h. ltb (now - h.1) rate_window) hits

abbrev pub hits_of : ℤ → List (ℤ × ℕ) → ℕ
hits_of user_id hits = length (retain (λ h. eq_ℤ h.0 user_id) hits)

unfoldable pub check_at : ℤ → ℕ → RateLimiter → Bool × RateLimiter
check_at user_id now limiter =
    let kept = recent now limiter.hits in
    if leb limiter.per_minute (u32 (hits_of user_id kept))
    then (false, record limiter { hits = kept })
    else (true, record limiter { hits = kept ++ ((user_id, now) ∷ []) })
