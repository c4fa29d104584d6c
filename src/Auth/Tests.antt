-- ===== src/Auth/Tests.antt =====
-- The theorems on the middleware and on ingestion at concrete requests.
use microgrid_cloud.Prelude.{
  String, [], ◌∷◌, ◌≡◌, ◌≢◌, refl, Option, none, some, ◌==◌, if◌then◌else◌, any_where, pos, arith,
  ◌-ℤ◌, ◌*ℤ◌, ◌+ℤ◌,
}
use microgrid_cloud.Auth.Policy.{
  Role, operator, Request, Policy, is_exempt, required_role, listed_role, normalize_role,
  role_at_least,
}
use microgrid_cloud.Auth.Middleware.{
  Claims, Identity, open_to_all, wrap, parse_jwt, check_claims, admit,
}
use microgrid_cloud.Auth.Ingest.{
  Signing, IngestRequest, check_signature, check_time, is_expired, skew, unix_time,
  compute_ingest_signature, saturated, negated, wrap_int64, wrap as wrap_ingest,
}
use microgrid_cloud.Auth.Freshness.{Fresh, served-Fresh}
use microgrid_cloud.Auth.Guard.{Proven, served-Proven, api_guarded}

abbrev verify : String → String → Option Claims
verify token secret =
    if token == "good"
    then some
        (record { tenant_id = "home"; role = "operator"; subject = "ann"; expires_at = some 9 })
    else none

abbrev policy : Policy
policy = record { exempt_paths = "/healthz" ∷ []; exempt_prefixes = "/ingest/" ∷ [] }

abbrev stop : Request
stop = record { method = "POST"; path = "/api/v1/commands"; token = "good" }

abbrev ann : Identity
ann = record { tenant_id = "home"; role = operator; subject = "ann" }

served-Proven_example :
    (required : Role) × (required_role stop ≡ some required)
    × ((c : Claims) × Proven verify "key" 5 stop required ann c)
unfolding wrap is_exempt any_where required_role listed_role parse_jwt check_claims normalize_role
    admit role_at_least
served-Proven_example = served-Proven verify "key" 5 policy stop ann refl

api_guarded_example : wrap verify "key" 5 policy (record stop { token = "bad" }) ≢ open_to_all
unfolding is_exempt any_where
api_guarded_example = api_guarded verify "key" 5 policy (record stop { token = "bad" }) refl refl

abbrev signing : Signing
signing = record {
  hmac_hex = λ secret text. secret;
  to_lower = λ t. t;
  trim_space = λ t. t;
  parse_int = λ t. if t == "7" then some (pos 7) else none;
}

abbrev reading : IngestRequest
reading = record { timestamp_header = "7"; signature_header = "key"; body = some "{}" }

served-Fresh_example : Fresh signing "key" 300000000000 62135596800000000000 reading "{}"
unfolding wrap_ingest check_time check_signature is_expired skew unix_time compute_ingest_signature
    saturated negated wrap_int64 ◌-ℤ◌ ◌*ℤ◌ ◌+ℤ◌
served-Fresh_example =
    served-Fresh signing "key" 300000000000 62135596800000000000 reading "{}" (omega arith)
      (omega arith) refl
