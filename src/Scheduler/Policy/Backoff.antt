-- ===== src/Scheduler/Policy/Backoff.antt =====
-- The waits between the attempts of one window.
use dotagent.Common.{
  ℕ, ◌+◌, ◌-◌, ◌*◌, ◌≤◌, ◌≡◌, ◌↔◌, true, some, List, ◌∷◌, arith, min, length, get_or,
}
use dotagent.Common.Int.{pos, leb_ℤ}
use dotagent.Time.{Instant, num_minutes, minute_ns}
use dotagent.Scheduler.Policy.{should_retry, is_stale}

-- Whole minutes, as counted, reach a wait exactly when the time does.
wait_over :
    (w : ℕ) (last now : Instant)
    → last ≤ now
    → (leb_ℤ (pos w) (num_minutes now last) ≡ true) ↔ (last + w * minute_ns ≤ now)
unfolding num_minutes
wait_over w last now le = (λ h. ground arith, λ h. ground arith)

-- After the last attempt, a retry is allowed exactly when the wait that its number selects has
-- passed: the n-th wait after the n-th attempt, and the last one from there on.
pub should_retry_iff :
    (attempts b : ℕ) (bs : List ℕ) (last now : Instant)
    → last ≤ now
    → (should_retry attempts (some last) (b ∷ bs) now ≡ true)
      ↔ (last + get_or (b ∷ bs) (min (attempts - 1) (length bs)) 0 * minute_ns ≤ now)
unfolding should_retry
should_retry_iff attempts b bs last now le =
    let idx : min (attempts - 1) (length (b ∷ bs) - 1) ≡ min (attempts - 1) (length bs) =
      omega arith in
    rw (← idx)
      (wait_over (get_or (b ∷ bs) (min (attempts - 1) (length (b ∷ bs) - 1)) 0) last now le)

-- A window is stale exactly when more than the given number of whole minutes have passed.
pub is_stale_iff :
    (exp now : Instant) (m : ℕ) → (is_stale exp m now ≡ true) ↔ (exp + (m + 1) * minute_ns ≤ now)
unfolding is_stale
is_stale_iff exp now m = (λ h. ground arith, λ h. ground arith)
