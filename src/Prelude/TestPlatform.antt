-- ===== src/Prelude/TestPlatform.antt =====
-- A platform for the tests: texts stand for their own hashes, a number is written in strokes, and a
-- month has 31 instants. Its columns keep every tenth instant.
use Prim.Native.Nat.{zero, suc, ◌+◌, ◌*◌, ◌/◌}
use microgrid_cloud.Prelude.{ℕ, String, ◌+++◌, none, some, ◌==◌, if◌then◌else◌}
use microgrid_cloud.Prelude.Platform.{Platform}

abbrev pub strokes : ℕ → String
strokes zero = ""
strokes (suc n) = "i" +++ strokes n

abbrev pub test_platform : Platform
test_platform = record {
  sha1_short = λ s. s;
  sha256_short = λ s. s;
  sha1_hex = λ s. s;
  format_nano = strokes;
  format_month = λ t. "2026-01";
  format_day = strokes;
  format_minute = strokes;
  itoa = strokes;
  parse_month = λ s. if s == "2026-01" then some 10 else none;
  next_month = λ t. t + 31;
  format_hour = strokes;
  format_year = strokes;
  truncate_to_day = λ t. t;
  month_start = λ t. 10;
  format_month_compact = λ t. "202601";
  format_date = λ t. "date";
  format_seconds = λ t. "time";
  timestamptz = λ t. t / 10 * 10;
}
