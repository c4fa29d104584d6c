-- ===== src/Auth/Freshness.antt =====
-- What is asked of an ingested request: backend/internal/auth/ingest.go.
use Prim.Native.Nat.{◌<◌}
use microgrid_cloud.Prelude.{
  ℕ, ◌+◌, String, true, false, ◌||◌, Option, none, some, ◌≡◌, ◌⊎◌, inl, inr, refl, subst, subst,
  arith, ◌==◌, ℤ, pos, negsuc, ◌+ℤ◌, ◌-ℤ◌, ltb_ℤ, leb_ℤ, max_int64, Bool-cases,
}
use microgrid_cloud.Auth.Ingest.{
  Signing, IngestRequest, IngestAnswer, served, not_configured, missing_signature, unix_time,
  saturated, negated, skew, is_expired, compute_ingest_signature, check_signature, check_time, wrap,
}

-- The two times are no further apart than the given number of nanoseconds.
abbrev pub Near : ℕ → ℤ → ℕ → Type 0
Near now t max = (leb_ℤ t (pos (now + max)) ≡ true) × (leb_ℤ (pos now) (t +ℤ pos max) ≡ true)

-- The time lies further ahead than a duration can say.
abbrev pub FarAhead : ℕ → ℤ → Type 0
FarAhead now t = ltb_ℤ (pos (now + max_int64)) t ≡ true

skew_fresh :
    (now max : ℕ) (t : ℤ)
    → max < max_int64
    → ltb_ℤ (pos max) (skew now t) ≡ false
    → Near now t max ⊎ FarAhead now t
unfolding skew saturated negated ◌-ℤ◌ ◌+ℤ◌
skew_fresh now max (pos t) bound h = elim (Bool-cases (ltb_ℤ (pos (now + max_int64)) (pos t))) [
  | inl far ↦ inr far
  | inr near ↦ inl (ground arith, ground arith)
]
skew_fresh now max (negsuc t) bound h = inl (ground arith, ground arith)

skew_far : (now max : ℕ) (t : ℤ) → FarAhead now t → ltb_ℤ (pos max) (skew now t) ≡ false
unfolding skew saturated negated ◌-ℤ◌
skew_far now max t h = ground arith

module _ (signing : Signing) (secret : String) (max : ℕ) (now : ℕ) where
  -- What a served request has shown.
  pub record Fresh (r : IngestRequest) (body : String) : Type 0 where
    pub configured : secret == "" ≡ false
    pub read : r.body ≡ some body
    pub seconds : ℤ
    pub stated : signing.parse_int (signing.trim_space r.timestamp_header) ≡ some seconds
    pub recent : Near now (unix_time seconds) max ⊎ FarAhead now (unix_time seconds)
    pub signed :
        signing.to_lower (signing.trim_space r.signature_header)
          == compute_ingest_signature signing secret
              (pos max)
              (signing.trim_space r.timestamp_header)
              body
        ≡ true

  checked :
      (timestamp signature body : String) (content : Option String) (sec : ℤ)
      → 0 < max
      → check_time signing secret (pos max) now timestamp signature content (some sec) ≡ served body
      → (ltb_ℤ (pos max) (skew now (unix_time sec)) ≡ false)
        × (content ≡ some body)
        × (signing.to_lower signature
              == compute_ingest_signature signing secret (pos max) timestamp body
            ≡ true)
  unfolding check_time is_expired check_signature
  checked timestamp signature body none sec positive h = absurd (ground arith)
  checked timestamp signature body (some content) sec positive h =
      elim (Bool-cases (ltb_ℤ (pos max) (skew now (unix_time sec)))) [
        | inl late ↦ absurd (ground arith)
        | inr recent ↦
            elim (Bool-cases (
              signing.to_lower signature
              == compute_ingest_signature signing secret (pos max) timestamp content)) [
                | inl signed ↦
                    let same : content ≡ body = (ground arith) in
                    let of_body =
                      subst
                        (λ b.
                          signing.to_lower signature
                            == compute_ingest_signature signing secret (pos max) timestamp b
                          ≡ true)
                        same signed in
                    (recent, ground arith, of_body)
                | inr forged ↦ absurd (ground arith)
              ]
      ]

  differ : (a : IngestAnswer) (body : String) → (a ≡ served body → ⊥) → a ≡ served body → ⊥
  differ a body differs h = differs h

  answered :
      (r : IngestRequest) (body : String)
      → 0 < max
      → max < max_int64
      → secret == "" ≡ false
      → (sec : Option ℤ) → signing.parse_int (signing.trim_space r.timestamp_header) ≡ sec
      → check_time signing secret
          (pos max)
          now
          (signing.trim_space r.timestamp_header)
          (signing.trim_space r.signature_header)
          r.body
          sec
        ≡ served body
      → Fresh r body
  unfolding check_time
  answered r body positive bound configured none e h = cc
  answered r body positive bound configured (some sec) e h =
      let (late, content, signed) =
        checked (signing.trim_space r.timestamp_header) (signing.trim_space r.signature_header) body
          r.body sec positive h in
      record {
        configured = configured;
        read = content;
        seconds = sec;
        stated = e;
        recent = skew_fresh now max (unix_time sec) bound late;
        signed = signed;
      }

  -- With a positive limit on the skew, a request that is served has a body, a secret is configured,
  -- and the signature is that of its timestamp and body under the secret; its timestamp is no further
  -- from the clock than the limit, or so far ahead of it that the difference is no duration.
  pub served-Fresh :
      (r : IngestRequest) (body : String)
      → 0 < max
      → max < max_int64
      → wrap signing secret (pos max) now r ≡ served body
      → Fresh r body
  unfolding wrap
  served-Fresh r body positive bound h = elim (Bool-cases (secret == "")) [
    | inl bare ↦ absurd (differ not_configured body (λ h. cc) (rw bare at h))
    | inr configured ↦
        elim (Bool-cases (
          signing.trim_space r.timestamp_header == ""
          || signing.trim_space r.signature_header == "")) [
            | inl blank ↦
                absurd (differ missing_signature body (λ h. cc) (rw (configured, blank) at h))
            | inr filled ↦
                answered r body positive bound configured
                  (signing.parse_int (signing.trim_space r.timestamp_header)) refl
                  (rw (configured, filled) at h)
          ]
  ]

  -- A signed request with a timestamp further ahead of the clock than a duration can say is served
  -- at any time until then, whatever the limit.
  FarAhead-served :
      (r : IngestRequest) (body : String) (sec : ℤ)
      → secret == "" ≡ false
      → (signing.trim_space r.timestamp_header == "" || signing.trim_space r.signature_header == "")
        ≡ false
      → signing.parse_int (signing.trim_space r.timestamp_header) ≡ some sec
      → FarAhead now (unix_time sec)
      → r.body ≡ some body
      → signing.to_lower (signing.trim_space r.signature_header)
          == compute_ingest_signature signing secret
              (pos max)
              (signing.trim_space r.timestamp_header)
              body
        ≡ true
      → wrap signing secret (pos max) now r ≡ served body
  unfolding wrap check_time check_signature is_expired
  FarAhead-served r body sec configured filled stated far read signed =
      let fresh = skew_far now max (unix_time sec) far in
      rw (configured, filled, stated, read)
        (elim (Bool-cases (ltb_ℤ (pos 0) (pos max))) [
          | inl limited ↦ rw (limited, fresh, signed) refl
          | inr unlimited ↦ rw (unlimited, signed) refl
        ])
