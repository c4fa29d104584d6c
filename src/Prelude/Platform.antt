-- ===== src/Prelude/Platform.antt =====
-- What the services call of Go's standard library for identifiers: hashes and the formatting and
-- parsing of times; and the precision of the database's times. Nothing is assumed of it.
use microgrid_cloud.Prelude.{ℕ, String, Option}

pub record Platform : Type 0 where
  -- The first eight bytes of SHA-1 and SHA-256, in hexadecimal.
  pub sha1_short : String → String
  pub sha256_short : String → String
  -- The whole SHA-1, in hexadecimal.
  pub sha1_hex : String → String
  -- `t.Format(time.RFC3339Nano)`, and the layouts "2006-01", "20060102" and "2006-01-02T15:04".
  pub format_nano : ℕ → String
  pub format_month : ℕ → String
  pub format_day : ℕ → String
  pub format_minute : ℕ → String
  -- `strconv.Itoa`.
  pub itoa : ℕ → String
  -- `time.Parse("2006-01", s)`, taken to the first instant of the month.
  pub parse_month : String → Option ℕ
  -- `t.AddDate(0, 1, 0)`.
  pub next_month : ℕ → ℕ
  -- The layouts "20060102T15" and "2006", and the first instant of the day of a time.
  pub format_hour : ℕ → String
  pub format_year : ℕ → String
  pub truncate_to_day : ℕ → ℕ
  -- The first instant of the month of a time, and the layouts "200601", "2006-01-02" and RFC 3339.
  pub month_start : ℕ → ℕ
  pub format_month_compact : ℕ → String
  pub format_date : ℕ → String
  pub format_seconds : ℕ → String
  -- The instant that a TIMESTAMPTZ column keeps of a time: whole microseconds.
  pub timestamptz : ℕ → ℕ
