-- ===== src/Scheduler/Policy.antt =====
-- `ResolvedPolicy::resolve`, `is_stale` and `should_retry`.
pub mod Backoff
use dotagent.Common.{
  ℕ, ◌-◌, Bool, true, Option, none, some, List, [], ◌∷◌, min, length, get_or, unwrap_or, or_option,
}
use dotagent.Common.Int.{pos, ltb_ℤ, leb_ℤ}
use dotagent.Time.{Instant, num_minutes}
use dotagent.Manifest.{Schedule, ScheduleDefaults, overrides}

pub record ResolvedPolicy : Type 0 where
  pub max_retries : ℕ
  pub retry_backoff_minutes : List ℕ
  pub stale_after_minutes : ℕ

abbrev pub default_backoff : List ℕ
default_backoff = 5 ∷ 15 ∷ 30 ∷ []

unfoldable pub resolve : ScheduleDefaults → Schedule → ResolvedPolicy
unfolding overrides
resolve defaults schedule =
    let ov = overrides schedule in
    record {
      max_retries = unwrap_or (or_option ov.max_retries defaults.max_retries) 3;
      retry_backoff_minutes =
          unwrap_or (or_option ov.retry_backoff_minutes defaults.retry_backoff_minutes)
            default_backoff;
      stale_after_minutes =
          unwrap_or (or_option ov.stale_after_minutes defaults.stale_after_minutes) 120;
    }

unfoldable pub is_stale : Instant → ℕ → Instant → Bool
unfolding num_minutes
is_stale expected_at stale_after_min now = ltb_ℤ (pos stale_after_min) (num_minutes now expected_at)

-- `backoffs[idx]` is in bounds, so the default of `get_or` is never read
unfoldable pub should_retry : ℕ → Option Instant → List ℕ → Instant → Bool
unfolding num_minutes
should_retry attempts none backoffs now = true
should_retry attempts (some last) [] now = true
should_retry attempts (some last) (b ∷ bs) now =
    let backoffs = b ∷ bs in
    let idx = min (attempts - 1) (length backoffs - 1) in
    let wait_min = get_or backoffs idx 0 in leb_ℤ (pos wait_min) (num_minutes now last)
