-- ===== src/Auth/Middleware.antt =====
-- Tokens and the middleware: backend/internal/auth/jwt.go and middleware.go. The signature and the
-- encoding of tokens are the JWT library's, and a parameter: the claims of a token that a secret
-- verifies, if it does. The time of the check is an argument.
use microgrid_cloud.Prelude.{ℕ, String, Bool, false, Option, none, some, ◌==◌, if◌then◌else◌, ltb}
use microgrid_cloud.Prelude.Exec.{Result, ok, err}
use microgrid_cloud.Auth.Policy.{
  Role, nobody, Request, Policy, normalize_role, role_at_least, is_exempt, required_role,
}

pub record Claims : Type 0 where
  pub tenant_id : String
  pub role : String
  pub subject : String
  pub expires_at : Option ℕ

pub data AuthError : Type 0 where
  empty_token empty_secret invalid_token missing_tenant_id invalid_role token_expired : AuthError

abbrev pub expired : ℕ → Option ℕ → Bool
expired now none = false
expired now (some t) = ltb t now

unfoldable pub check_claims : ℕ → Claims → Result AuthError Claims
unfolding normalize_role
check_claims now c =
    if c.tenant_id == "" then err missing_tenant_id else elim (normalize_role c.role) [
      | none ↦ err invalid_role
      | some role ↦ if expired now c.expires_at then err token_expired else ok c
    ]

-- Who makes a request, as `WithIdentity` puts it in the context.
pub record Identity : Type 0 where
  pub tenant_id : String
  pub role : Role
  pub subject : String

-- Served with an identity, served without one, 401 or 403.
pub data Reply : Type 0 where
  served : Identity → Reply
  open_to_all unauthorized forbidden : Reply

abbrev pub or_nobody : Option Role → Role
or_nobody none = nobody
or_nobody (some role) = role

module _ (verify : String → String → Option Claims) (secret : String) (now : ℕ) where
  unfoldable pub parse_jwt : String → Result AuthError Claims
  unfolding check_claims
  parse_jwt token =
      if token == ""
      then err empty_token
      else if secret == ""
      then err empty_secret
      else elim (verify token secret) [ none ↦ err invalid_token | some c ↦ check_claims now c ]

  unfoldable pub admit : Role → Result AuthError Claims → Reply
  unfolding role_at_least normalize_role
  admit required (err e) = unauthorized
  admit required (ok c) =
      let role = or_nobody (normalize_role c.role) in
      if role_at_least role required
      then served (record { tenant_id = c.tenant_id; role = role; subject = c.subject })
      else forbidden

  unfoldable pub wrap : Policy → Request → Reply
  unfolding is_exempt required_role parse_jwt admit
  wrap policy r = if is_exempt policy r then open_to_all else elim (required_role r) [
    | none ↦ open_to_all
    | some required ↦ admit required (parse_jwt r.token)
  ]
