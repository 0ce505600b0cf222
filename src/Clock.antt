-- ===== src/Clock.antt =====
-- Python's `datetime`, `timedelta` and `date` as the engine uses them: a time is a count of
-- microseconds from `datetime.min`, a Monday at midnight, either a naive wall clock or an aware instant in UTC.
use payment_recovery_engine.Prelude.{ℕ, ◌+◌, ◌*◌, ◌/◌, ◌%◌}

pub data Timestamp : Type 0 where
  naive : ℕ → Timestamp
  aware : ℕ → Timestamp

-- The coercion `ts if ts.tzinfo is not None else ts.replace(tzinfo=UTC)`, as an instant.
abbrev pub to_utc : Timestamp → ℕ
to_utc (naive t) = t
to_utc (aware t) = t

abbrev pub seconds : ℕ → ℕ
seconds n = n * 1000000

abbrev pub minute_us : ℕ
minute_us = 60000000

abbrev pub hour_us : ℕ
hour_us = 3600000000

abbrev pub day_us : ℕ
day_us = 86400000000

-- `timedelta(hours=h)`
abbrev pub hours : ℕ → ℕ
hours h = h * hour_us

-- `timedelta(days=d)`
abbrev pub days : ℕ → ℕ
days d = d * day_us

-- India is UTC+5:30, with no daylight saving.
abbrev pub ist_offset_us : ℕ
ist_offset_us = 19800000000

-- `dt.astimezone(IST)`, as a wall clock.
abbrev pub to_ist : ℕ → ℕ
to_ist t = t + ist_offset_us

-- `.hour` of a wall clock.
abbrev pub hour_of : ℕ → ℕ
hour_of t = (t / hour_us) % 24
