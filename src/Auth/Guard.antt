-- ===== src/Auth/Guard.antt =====
-- What the middleware lets through.
use text.Mathlib.Text.{starts_with}
use microgrid_cloud.Prelude.{
  ℕ, String, true, false, ◌≡◌, ◌≢◌, refl, sym, subst, arith, Option, none, some, ◌==◌, ◌≤◌,
  Option-cases, Bool-cases, inl, inr,
}
use microgrid_cloud.Prelude.Exec.{Result, ok, err}
use microgrid_cloud.Auth.Policy.{
  Role, Request, Policy, role_rank, normalize_role, role_at_least, is_exempt, listed_role,
  default_role, required_role,
}
use microgrid_cloud.Auth.Middleware.{
  Claims, AuthError, missing_tenant_id, invalid_role, token_expired, empty_token, empty_secret,
  invalid_token, expired, check_claims, Identity, served, open_to_all, unauthorized, forbidden,
  or_nobody, parse_jwt, admit, wrap,
}

module _ (verify : String → String → Option Claims) (secret : String) (now : ℕ) where
  -- Claims that the token proves, of a tenant, of a known role, and not expired.
  pub record Proven (r : Request) (required : Role) (i : Identity) (c : Claims) : Type 0 where
    pub verified : verify r.token secret ≡ some c
    pub same_tenant : i.tenant_id ≡ c.tenant_id
    pub has_tenant : i.tenant_id == "" ≡ false
    pub known_role : normalize_role c.role ≡ some i.role
    pub enough : role_rank required ≤ role_rank i.role
    pub in_time : expired now c.expires_at ≡ false

  -- What `check_claims` has checked.
  record Checked (c' c : Claims) : Type 0 where
    same_claims : c' ≡ c
    has_tenant : c.tenant_id == "" ≡ false
    in_time : expired now c.expires_at ≡ false
    role : Role
    known_role : normalize_role c.role ≡ some role

  checked : (c' c : Claims) → check_claims now c' ≡ ok c → Checked c' c
  unfolding check_claims
  checked c' c h = elim (Bool-cases (c'.tenant_id == "")) [
    | inl e ↦ absurd (ok_err missing_tenant_id (rw e at h))
    | inr named ↦ elim (Option-cases (normalize_role c'.role)) [
      | inl e ↦ absurd (ok_err invalid_role (rw (named, e) at h))
      | inr (role, e) ↦ elim (Bool-cases (expired now c'.expires_at)) [
        | inl late ↦ absurd (ok_err token_expired (rw (named, e, late) at h))
        | inr early ↦
            let same : c' ≡ c = ok_same (rw (named, e, early) at h) in
            subst (Checked c') same (record {
              same_claims = refl;
              has_tenant = named;
              in_time = early;
              role = role;
              known_role = e;
            })
      ]
    ]
  ]
    where
      ok_err : (x : AuthError) → ◌≡◌ {A = Result AuthError Claims} (err x) (ok c) → ⊥
      ok_err x e = cc

      ok_same : ◌≡◌ {A = Result AuthError Claims} (ok c') (ok c) → c' ≡ c
      ok_same e = cc

  -- What `parse_jwt` has checked: the token is verified, with claims that pass the checks.
  parsed :
      (token : String) (c : Claims)
      → parse_jwt verify secret now token ≡ ok c
      → (verify token secret ≡ some c) × Checked c c
  unfolding parse_jwt
  parsed token c h = elim (Bool-cases (token == "")) [
    | inl e ↦ absurd (ok_err empty_token (rw e at h))
    | inr named ↦ elim (Bool-cases (secret == "")) [
      | inl e ↦ absurd (ok_err empty_secret (rw (named, e) at h))
      | inr keyed ↦ elim (Option-cases (verify token secret)) [
        | inl e ↦ absurd (ok_err invalid_token (rw (named, keyed, e) at h))
        | inr (c', e) ↦
            let k = checked c' c (rw (named, keyed, e) at h) in
            (
              subst (λ x. verify token secret ≡ some x) k.same_claims e,
              subst (λ x. Checked x c) k.same_claims k,
            )
      ]
    ]
  ]
    where
      ok_err : (x : AuthError) → ◌≡◌ {A = Result AuthError Claims} (err x) (ok c) → ⊥
      ok_err x e = cc

  admitted :
      (required : Role) (parse : Result AuthError Claims) (i : Identity)
      → admit verify secret now required parse ≡ served i
      → (c : Claims) × (parse ≡ ok c)
        × (i ≡ record {
          tenant_id = c.tenant_id;
          role = or_nobody (normalize_role c.role);
          subject = c.subject;
        })
        × (role_at_least (or_nobody (normalize_role c.role)) required ≡ true)
  unfolding admit
  admitted required (err e) i h = absurd (denied h)
    where
      denied : unauthorized ≡ served i → ⊥
      denied e = cc
  admitted required (ok c) i h =
      elim (Bool-cases (role_at_least (or_nobody (normalize_role c.role)) required)) [
        | inl enough ↦ (c, refl, same (rw enough at h), enough)
        | inr short ↦ absurd (denied (rw short at h))
      ]
    where
      denied : forbidden ≡ served i → ⊥
      denied e = cc

      same :
          served (record {
            tenant_id = c.tenant_id;
            role = or_nobody (normalize_role c.role);
            subject = c.subject;
          })
            ≡ served i
          → i ≡ record {
            tenant_id = c.tenant_id;
            role = or_nobody (normalize_role c.role);
            subject = c.subject;
          }
      same e = cc

  guarded :
      (required : Role) (r : Request) (i : Identity)
      → admit verify secret now required (parse_jwt verify secret now r.token) ≡ served i
      → (c : Claims) × Proven r required i c
  unfolding role_at_least
  guarded required r i h =
      let (c, e, same, enough) = admitted required (parse_jwt verify secret now r.token) i h in
      let (verified, k) = parsed r.token c e in
      (
        c,
        subst (λ x. Proven r required x c) (sym same)
            (record {
              verified = verified;
              same_tenant = refl;
              has_tenant = k.has_tenant;
              known_role = rw k.known_role refl;
              enough = ground arith;
              in_time = k.in_time;
            }),
      )

  -- A request that the middleware serves with an identity needs a role, and has a token that the
  -- secret verifies; its claims name the identity's tenant, which is not empty, and its role, which
  -- is known and at least the one needed, and they have not expired.
  pub served-Proven :
      (policy : Policy) (r : Request) (i : Identity)
      → wrap verify secret now policy r ≡ served i
      → (required : Role) × (required_role r ≡ some required)
        × ((c : Claims) × Proven r required i c)
  unfolding wrap
  served-Proven policy r i h = elim (Bool-cases (is_exempt policy r)) [
    | inl exempt ↦ absurd (opened (rw exempt at h))
    | inr strict ↦ elim (Option-cases (required_role r)) [
      | inl free ↦ absurd (opened (rw (strict, free) at h))
      | inr (required, e) ↦ (required, e, guarded required r i (rw (strict, e) at h))
    ]
  ]
    where
      opened : open_to_all ≡ served i → ⊥
      opened e = cc

  needs_role : (r : Request) → starts_with r.path "/api/" ≡ true → required_role r ≢ none
  unfolding required_role default_role
  needs_role r api h = elim (Option-cases (listed_role r.method r.path)) [
    | inl e ↦ ground (arith, api, e, h)
    | inr (role, e) ↦ ground (arith, e, h)
  ]

  served_closed : (i : Identity) → served i ≡ open_to_all → ⊥
  served_closed i e = cc

  forbidden_closed : forbidden ≡ open_to_all → ⊥
  forbidden_closed e = cc

  never_open :
      (parse : Result AuthError Claims) (required : Role)
      → admit verify secret now required parse ≡ open_to_all
      → ⊥
  unfolding admit
  never_open (err e) required k = cc
  never_open (ok c) required k =
      elim (Bool-cases (role_at_least (or_nobody (normalize_role c.role)) required)) [
        | inl enough ↦ served_closed _ (rw enough at k)
        | inr short ↦ forbidden_closed (rw short at k)
      ]

  -- A request under /api/ that the policy does not exempt is never served without an identity.
  pub api_guarded :
      (policy : Policy) (r : Request)
      → starts_with r.path "/api/" ≡ true
      → is_exempt policy r ≡ false
      → wrap verify secret now policy r ≢ open_to_all
  unfolding wrap
  api_guarded policy r api strict h = elim (Option-cases (required_role r)) [
    | inl e ↦ needs_role r api e
    | inr (required, e) ↦
        never_open (parse_jwt verify secret now r.token) required (rw (strict, e) at h)
  ]
