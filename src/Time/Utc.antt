-- ===== src/Time/Utc.antt =====
-- The calendar of a zone without offset or clock changes: the assumptions on a calendar hold of it.
use dotagent.Common.{ℕ, ◌+◌, ◌*◌, ◌/◌, ◌%◌, ◌&&◌, Option, none, some, arith, ltb, if◌then◌else◌}
use dotagent.Time.Clock.{Calendar, CalendarLaws, day_ns, hour_ns, minute_ns}

abbrev utc_at : ℕ → ℕ → ℕ → Option ℕ
utc_at t h m =
    if ltb h 24 && ltb m 60 then some (t / day_ns * day_ns + h * hour_ns + m * minute_ns) else none

-- 1970-01-01 was a Thursday.
abbrev pub utc : Calendar
utc = record {
  weekday = λ t. (t / day_ns + 4) % 7;
  hour = λ t. t / hour_ns % 24;
  minute = λ t. t / minute_ns % 60;
  date = λ t. t / day_ns;
  at_time = utc_at;
  label = λ t. t / minute_ns;
}

pub utc-laws : CalendarLaws utc
utc-laws = record {
  at-hour = λ t h m r e. ground arith;
  at-minute = λ t h m r e. ground arith;
  at-date = λ t h m r e. ground arith;
  date-weekday = λ t u e. ground arith;
  date-at = λ t u h m e. ground arith;
  at-le = λ t h m r e. (λ le. ground arith, λ w. ground arith);
}
