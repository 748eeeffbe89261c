-- ===== src/AuthGate/Gate.antt =====
-- `AuthMiddleware` of app/core/auth_middleware.py, and `verify_access_token` of
-- app/services/auth_service.py. A `World` is all that a decision reads besides the request.
use Prim.Native.Char.{code}
use Prim.Native.String.{[] as nil, ◌∷◌ as ◌▸◌}
use text.Mathlib.Text.{starts_with}
use xzcccc_smart_media.Base.{
  ℕ, List, [], ◌∷◌, Bool, true, false, not, ◌&&◌, ◌||◌, ◌==◌, ltb, if◌then◌else◌, String, str_eq,
  Option, none, some, any, is_some,
}
use xzcccc_smart_media.Text.Split.{split}
use xzcccc_smart_media.Login.Account.{User}
use xzcccc_smart_media.AuthGate.Contract.{
  AuthTexts, Env, given_text, text_or_empty, SecurityConfig, load_security_config,
  resolve_auth_configuration,
}
use xzcccc_smart_media.AuthGate.Proxy.{Url, HttpRequest, is_dedicated_emby_proxy_request}

-- The fields `type` and `sub` of a token's payload.
pub record Payload : Type 0 where
  pub token_type : Option String
  pub sub : Option String

-- The environment, the configuration, the users by their id (none where the database fails), and the
-- library calls: `urlparse`, `jwt.decode` with the secret key (none where it raises) and `int(s)`
-- (none where it raises).
pub record World : Type 0 where
  pub texts : AuthTexts
  pub urlparse : String → Option Url
  pub jwt_decode : String → Option Payload
  pub parse_int : String → Option ℕ
  pub getenv : Env
  pub security : SecurityConfig
  pub proxy_base_url : Option String
  pub users : Option (List (ℕ × User))

abbrev pub public_paths : List String
public_paths =
    "/" ∷ "/health" ∷ "/health/live" ∷ "/health/ready" ∷ "/ready" ∷ "/docs" ∷ "/redoc"
    ∷ "/openapi.json" ∷ []

abbrev pub public_prefixes : List String
public_prefixes =
    "/static/" ∷ "/web/" ∷ "/api/proxy/stream/" ∷ "/api/proxy/redirect/" ∷ "/api/proxy/transcoding/"
    ∷ []

abbrev pub auth_public_paths : List String
auth_public_paths =
    "/api/auth/login" ∷ "/api/auth/refresh" ∷ "/api/auth/status" ∷ "/api/auth/verify" ∷ []

abbrev pub local_hosts : List String
local_hosts = "127.0.0.1" ∷ "::1" ∷ "localhost" ∷ []

-- A Bearer authorization has exactly two words.
unfoldable pub bearer_token : AuthTexts → List String → Option String
bearer_token texts [] = none
bearer_token texts (kind ∷ []) = none
bearer_token texts (kind ∷ token ∷ []) =
    if str_eq (texts.lower kind) "bearer" then some (texts.strip token) else none
bearer_token texts (kind ∷ token ∷ more ∷ rest) = none

abbrev pub cookie_token : AuthTexts → HttpRequest → Option String
cookie_token texts r = elim (given_text (r.cookie "auth_token")) [
  | some auth_cookie ↦ some (texts.strip auth_cookie)
  | none ↦ none
]

unfoldable pub extract_api_key : AuthTexts → HttpRequest → Option String
extract_api_key texts r = elim (given_text (r.header "X-API-Key")) [
  | some x_api_key ↦ some (texts.strip x_api_key)
  | none ↦ elim (given_text (r.header "Authorization")) [
    | some authorization ↦ elim (bearer_token texts (texts.words authorization)) [
      | some token ↦ some token
      | none ↦ cookie_token texts r
    ]
    | none ↦ cookie_token texts r
  ]
]

-- A database that fails counts as one with an admin.
unfoldable pub admin_exists : Option (List (ℕ × User)) → Bool
admin_exists none = true
admin_exists (some users) = any (λ row. str_eq row.1.role "admin") users

unfoldable pub can_bootstrap_init_admin : World → HttpRequest → Bool
can_bootstrap_init_admin w r =
    not (admin_exists w.users) && any (str_eq (text_or_empty r.client_host)) local_hosts

unfoldable pub is_public_path : World → HttpRequest → Option Bool
is_public_path w r = elim (is_dedicated_emby_proxy_request w.texts w.urlparse w.proxy_base_url r) [
  | none ↦ none
  | some true ↦ some true
  | some false ↦ some (
      any (str_eq r.path) public_paths
      || any (str_eq r.path) auth_public_paths
      || any (starts_with r.path) public_prefixes
      || (str_eq r.path "/api/auth/init-admin" && can_bootstrap_init_admin w r))
]

unfoldable pub access_subject : Payload → Option String
access_subject p = elim p.token_type [
  | none ↦ none
  | some kind ↦ if str_eq kind "access" then given_text p.sub else none
]

-- None as well where `int` raises, which the caller turns into a refusal.
unfoldable pub verify_access_token : World → String → Option ℕ
verify_access_token w token = elim (w.jwt_decode token) [
  | none ↦ none
  | some p ↦ elim (access_subject p) [ none ↦ none | some s ↦ w.parse_int s ]
]

unfoldable pub get_by_id : ℕ → List (ℕ × User) → Option User
get_by_id user_id [] = none
get_by_id user_id ((i, u) ∷ rest) = if i == user_id then some u else get_by_id user_id rest

abbrev pub active : Option User → Bool
active none = false
active (some u) = u.is_active

unfoldable pub validate_jwt_token : World → String → Bool
validate_jwt_token w token = elim (verify_access_token w token) [
  | none ↦ false
  | some user_id ↦
      if user_id == 0
      then false
      else elim w.users [ none ↦ false | some users ↦ active (get_by_id user_id users) ]
]

unfoldable pub is_ascii : String → Bool
is_ascii nil = true
is_ascii (c ▸ s) = ltb (code c) 128 && is_ascii s

-- `secrets.compare_digest` on texts: it raises TypeError unless both are ASCII.
unfoldable pub compare_digest : String → String → Option Bool
compare_digest a b = if is_ascii a && is_ascii b then some (str_eq a b) else none

-- The next handler, an error response, or an exception that leaves the middleware.
pub data AuthVerdict : Type 0 where
  passed : AuthVerdict
  unauthorized : AuthVerdict
  forbidden : AuthVerdict
  crashed : AuthVerdict

-- What `record_unauthorized_access` is given.
pub record AccessAttempt : Type 0 where
  pub ip_address : String
  pub user_agent : String
  pub request_path : String
  pub attempt_method : String

abbrev pub first_part : List String → String
first_part [] = ""
first_part (x ∷ xs) = x

unfoldable pub get_client_ip : AuthTexts → HttpRequest → String
get_client_ip texts r = elim (given_text (r.header "x-forwarded-for")) [
  | some forwarded_for ↦ texts.strip (first_part (split "," forwarded_for))
  | none ↦ elim (given_text (r.header "x-real-ip")) [
    | some real_ip ↦ real_ip
    | none ↦ elim r.client_host [ some host ↦ host | none ↦ "unknown" ]
  ]
]

-- No record where the database fails.
unfoldable pub record_unauthorized_access : World → HttpRequest → List AccessAttempt
record_unauthorized_access w r =
    if is_some w.users
    then record {
      ip_address = get_client_ip w.texts r;
      user_agent = text_or_empty (r.header "user-agent");
      request_path = r.path;
      attempt_method = r.request_method;
    }
      ∷ []
    else []

-- The comparison with the expected key, after the token was no valid one.
unfoldable pub check_key :
    World → HttpRequest → String → Option String → AuthVerdict × List AccessAttempt
check_key w r token none = (forbidden, record_unauthorized_access w r)
check_key w r token (some key) = elim (compare_digest token key) [
  | none ↦ (crashed, [])
  | some true ↦ (passed, [])
  | some false ↦ (forbidden, record_unauthorized_access w r)
]

unfoldable pub check_token :
    World → HttpRequest → Option String → Option String → AuthVerdict × List AccessAttempt
check_token w r none expected = (unauthorized, record_unauthorized_access w r)
check_token w r (some token) expected =
    if validate_jwt_token w token then (passed, []) else check_key w r token (given_text expected)

unfoldable pub dispatch : World → HttpRequest → AuthVerdict × List AccessAttempt
dispatch w r = elim (is_public_path w r) [
  | none ↦ (crashed, [])
  | some true ↦ (passed, [])
  | some false ↦
      let config = resolve_auth_configuration w.texts w.getenv (load_security_config w.security) in
      if not config.1
      then (passed, [])
      else check_token w r (given_text (extract_api_key w.texts r)) config.0
]
