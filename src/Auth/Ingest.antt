-- ===== src/Auth/Ingest.antt =====
-- The signatures of ingested telemetry: backend/internal/auth/ingest.go.
use Prim.Native.Nat.{◌%◌, ◌-◌}
use microgrid_cloud.Prelude.{
  ℕ, ◌+◌, String, ◌+++◌, Bool, ◌&&◌, ◌||◌, Option, none, some, ◌==◌, if◌then◌else◌, ℤ, pos, negsuc,
  ◌+ℤ◌, ◌-ℤ◌, ◌*ℤ◌, ltb_ℤ, max_int64,
}

-- What the code calls of Go's standard library: HMAC-SHA256 in hexadecimal of a text under a secret,
-- `strings.ToLower`, `strings.TrimSpace`, and `strconv.ParseInt` to 64 bits. Nothing is assumed of it.
pub record Signing : Type 0 where
  pub hmac_hex : String → String → String
  pub to_lower : String → String
  pub trim_space : String → String
  pub parse_int : String → Option ℤ

-- `body` is `none` where reading it fails.
pub record IngestRequest : Type 0 where
  pub timestamp_header : String
  pub signature_header : String
  pub body : Option String

pub data IngestAnswer : Type 0 where
  not_configured missing_signature invalid_timestamp expired read_error : IngestAnswer
  invalid_signature : IngestAnswer
  served : String → IngestAnswer

abbrev pub min_int64 : ℤ
min_int64 = negsuc max_int64

-- The int64 that an integer wraps to.
unfoldable pub wrap_int64 : ℤ → ℤ
wrap_int64 (pos n) =
    if ltb_ℤ (pos max_int64) (pos (n % 18446744073709551616))
    then negsuc (18446744073709551615 - n % 18446744073709551616)
    else pos (n % 18446744073709551616)
wrap_int64 (negsuc n) =
    if ltb_ℤ (pos max_int64) (pos (n % 18446744073709551616))
    then pos (18446744073709551615 - n % 18446744073709551616)
    else negsuc (n % 18446744073709551616)

-- `time.Unix(sec, 0)`, in nanoseconds since the zero time: the seconds since the zero time are kept
-- as an int64.
unfoldable pub unix_time : ℤ → ℤ
unfolding wrap_int64
unix_time sec = wrap_int64 (sec +ℤ pos 62135596800) *ℤ pos 1000000000

-- `now.Sub(t)`, which saturates.
unfoldable pub saturated : ℤ → ℤ
saturated d =
    if ltb_ℤ d min_int64 then min_int64 else if ltb_ℤ (pos max_int64) d then pos max_int64 else d

-- `-d` on int64: the least duration is its own negation.
unfoldable pub negated : ℤ → ℤ
negated (pos n) = pos 0 -ℤ pos n
negated (negsuc n) = if ltb_ℤ (negsuc n) (negsuc 9223372036854775806) then negsuc n else pos (n + 1)

unfoldable pub skew : ℕ → ℤ → ℤ
unfolding saturated negated
skew now t = let d = saturated (pos now -ℤ t) in if ltb_ℤ d (pos 0) then negated d else d

unfoldable pub is_expired : ℤ → ℤ → Bool
is_expired max_skew s = ltb_ℤ (pos 0) max_skew && ltb_ℤ max_skew s

module _ (signing : Signing) (secret : String) (max_skew : ℤ) where
  unfoldable pub compute_ingest_signature : String → String → String
  compute_ingest_signature timestamp body = signing.hmac_hex secret (timestamp +++ "\n" +++ body)

  unfoldable pub check_signature : String → String → Option String → IngestAnswer
  unfolding compute_ingest_signature
  check_signature timestamp signature none = read_error
  check_signature timestamp signature (some body) =
      if signing.to_lower signature == compute_ingest_signature timestamp body
      then served body
      else invalid_signature

  unfoldable pub check_time : ℕ → String → String → Option String → Option ℤ → IngestAnswer
  unfolding check_signature skew is_expired
  check_time now timestamp signature body none = invalid_timestamp
  check_time now timestamp signature body (some sec) =
      if is_expired max_skew (skew now (unix_time sec))
      then expired
      else check_signature timestamp signature body

  -- `now` is the reading of the clock.
  unfoldable pub wrap : ℕ → IngestRequest → IngestAnswer
  unfolding check_time
  wrap now r =
      let timestamp = signing.trim_space r.timestamp_header in
      let signature = signing.trim_space r.signature_header in
      if secret == ""
      then not_configured
      else if timestamp == "" || signature == ""
      then missing_signature
      else check_time now timestamp signature r.body (signing.parse_int timestamp)
