-- ===== src/Time/Clock.antt =====
-- A `DateTime<Local>` is an instant: nanoseconds since the epoch (no instant before 1970 occurs).
-- The wall clock of the local time zone is code that is not in the repository: the record
-- `Calendar`, with what is relied on in `CalendarLaws`.
use dotagent.Common.{
  ℕ, ◌+◌, ◌-◌, ◌*◌, ◌/◌, ◌≤◌, ◌<◌, ◌≡◌, ◌↔◌, ◌⊎◌, Option, some, leb, if◌then◌else◌,
}
use dotagent.Common.Int.{ℤ, pos, neg_ℕ}

abbrev pub Instant : Type 0
Instant = ℕ

abbrev pub second : ℕ
second = 1_000_000_000

abbrev pub minute_ns : ℕ
minute_ns = 60_000_000_000

abbrev pub hour_ns : ℕ
hour_ns = 3_600_000_000_000

abbrev pub day_ns : ℕ
day_ns = 86_400_000_000_000

-- `t + Duration::minutes(m)`, m not negative
abbrev pub add_minutes : Instant → ℕ → Instant
add_minutes t m = t + m * minute_ns

-- `(a - b).num_minutes()` and `.num_seconds()`: signed, rounded towards zero
unfoldable pub num_minutes : Instant → Instant → ℤ
num_minutes a b = if leb b a then pos ((a - b) / minute_ns) else neg_ℕ ((b - a) / minute_ns)

unfoldable pub num_seconds : Instant → Instant → ℤ
num_seconds a b = if leb b a then pos ((a - b) / second) else neg_ℕ ((b - a) / second)

-- `Local.timestamp_opt(s, 0).single()` at whole seconds from the epoch on; and `t.timestamp()`
abbrev pub from_timestamp : ℕ → Instant
from_timestamp s = s * second

abbrev pub timestamp : Instant → ℕ
timestamp t = t / second

-- The local wall clock: `weekday().num_days_from_sunday()`, `hour()`, `minute()`, the date, the
-- instant `with_ymd_and_hms(date of t, h, m, 0).single()`, and the `YYYY-MM-DD-HHMM` label as a
-- number.
pub record Calendar : Type 0 where
  pub weekday : Instant → ℕ
  pub hour : Instant → ℕ
  pub minute : Instant → ℕ
  pub date : Instant → ℕ
  pub at_time : Instant → ℕ → ℕ → Option Instant
  pub label : Instant → ℕ

-- (h, m) is not after (h', m')
abbrev pub WallLe : ℕ → ℕ → ℕ → ℕ → Type 0
WallLe h m h' m' = (h < h') ⊎ ((h ≡ h') × (m ≤ m'))

-- What `with_ymd_and_hms` and the accessors document: the instant built for a date, an hour and a
-- minute shows them, two instants of one date build the same instants, and on one date an instant
-- that is built is no later than another exactly when its wall clock is.
pub record CalendarLaws (c : Calendar) : Type 0 where
  pub at-hour : (t h m r : ℕ) → c.at_time t h m ≡ some r → c.hour r ≡ h
  pub at-minute : (t h m r : ℕ) → c.at_time t h m ≡ some r → c.minute r ≡ m
  pub at-date : (t h m r : ℕ) → c.at_time t h m ≡ some r → c.date r ≡ c.date t
  pub date-weekday : (t u : ℕ) → c.date t ≡ c.date u → c.weekday t ≡ c.weekday u
  pub date-at : (t u h m : ℕ) → c.date t ≡ c.date u → c.at_time t h m ≡ c.at_time u h m
  pub at-le :
      (t h m r : ℕ) → c.at_time t h m ≡ some r → (r ≤ t) ↔ WallLe h m (c.hour t) (c.minute t)
