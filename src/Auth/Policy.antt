-- ===== src/Auth/Policy.antt =====
-- Roles and which of them a request needs: backend/internal/auth/roles.go and policy.go.
use text.Mathlib.Text.{starts_with, find?}
use microgrid_cloud.Prelude.{
  ℕ, String, List, Bool, true, false, ◌&&◌, ◌||◌, Option, none, some, ◌==◌, if◌then◌else◌, leb,
  any_where,
}

-- "viewer", "operator" and "admin"; `nobody` stands for every other text, which ranks lowest.
pub data Role : Type 0 where
  nobody viewer operator admin : Role

unfoldable pub normalize_role : String → Option Role
normalize_role value =
    if value == "viewer"
    then some viewer
    else if value == "operator"
    then some operator
    else if value == "admin"
    then some admin
    else none

abbrev pub role_rank : Role → ℕ
role_rank nobody = 0
role_rank viewer = 1
role_rank operator = 2
role_rank admin = 3

unfoldable pub role_at_least : Role → Role → Bool
role_at_least role required = leb (role_rank required) (role_rank role)

pub record Request : Type 0 where
  pub method : String
  pub path : String
  pub token : String  -- what `extractBearer` finds in the Authorization header

pub record Policy : Type 0 where
  pub exempt_paths : List String
  pub exempt_prefixes : List String

unfoldable pub is_exempt : Policy → Request → Bool
is_exempt p r =
    any_where (λ path. r.path == path) p.exempt_paths
    || any_where (λ prefix. starts_with r.path prefix) p.exempt_prefixes

-- `strings.Contains`.
abbrev pub contains : String → String → Bool
contains s t = elim (find? s t) [ none ↦ false | some i ↦ true ]

abbrev pub by_get : String → Role → Role → Option Role
by_get method reading writing = if method == "GET" then some reading else some writing

-- The cases of the switch, in their order.
unfoldable pub listed_role : String → String → Option Role
listed_role method path =
    if path == "/api/v1/provisioning/stations"
    then some admin
    else if path == "/api/v1/commands"
    then (if method == "POST" then some operator else some viewer)
    else if path == "/api/v1/alarms"
    then some viewer
    else if path == "/api/v1/alarms/stream"
    then some viewer
    else if starts_with path "/api/v1/alarms/" && method == "POST"
    then some operator
    else if starts_with path "/api/v1/strategies/"
    then by_get method viewer operator
    else if path == "/api/v1/stats"
    then some viewer
    else if path == "/api/v1/settlements"
    then some viewer
    else if path == "/api/v1/exports/settlements.csv"
    then some viewer
    else if path == "/api/v1/statements/generate"
    then some admin
    else if path == "/api/v1/statements"
    then some viewer
    else if starts_with path "/api/v1/statements/"
    then by_get method (if contains path "/export." then admin else viewer) admin
    else if starts_with path "/api/v1/shadowrun/"
    then by_get method viewer admin
    else if path == "/analytics/window-close"
    then some admin
    else none

-- What holds of the other paths of the API.
unfoldable pub default_role : String → String → Option Role
default_role method path =
    if starts_with path "/api/"
    then (if method == "GET" || (method == "HEAD" || method == "OPTIONS")
        then some viewer
        else some operator)
    else none

unfoldable pub required_role : Request → Option Role
unfolding listed_role default_role
required_role r = elim (listed_role r.method r.path) [
  | some role ↦ some role
  | none ↦ default_role r.method r.path
]
