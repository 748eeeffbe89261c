-- ===== src/AuthGate/Tests.antt =====
-- Runs of the middleware, and the theorems at small requests.
use xzcccc_smart_media.Base.{
  ◌≡◌, ◌≢◌, refl, [], true, false, if◌then◌else◌, String, str_eq, Option, none, some, any, keep,
  arith, ◌⊎◌, eq_iff,
}
use xzcccc_smart_media.Text.Split.{split}
use xzcccc_smart_media.AuthGate.Contract.{
  AuthTexts, first_set, get_api_key_env_override, get_require_api_key_env_override,
  load_security_config, resolve_auth_configuration,
}
use xzcccc_smart_media.AuthGate.Proxy.{
  Url, HttpRequest, has_text, is_emby_proxy_path, is_dedicated_emby_proxy_request,
}
use xzcccc_smart_media.AuthGate.Gate.{
  World, extract_api_key, is_public_path, can_bootstrap_init_admin, check_token, check_key,
  compare_digest, is_ascii, validate_jwt_token, verify_access_token, dispatch, passed, unauthorized,
  forbidden,
}
use xzcccc_smart_media.AuthGate.Csrf.{
  chain, csrf_dispatch, requires_csrf_validation, validate_csrf_token, get_or_create_csrf_token,
  needs_token, IsDoubled, chain-passed,
}
use xzcccc_smart_media.AuthGate.Forged.{forged_host_passes, with_host}
use xzcccc_smart_media.AuthGate.Entry.{
  dispatch-passed, IsDedicated, IsListed, IsBootstrap, configuration, IsCredential,
}

abbrev plain_texts : AuthTexts
plain_texts = record { strip = λ s. s; lower = λ s. s; words = split " " }

abbrev proxy_url : Url
proxy_url = record { scheme = "http"; hostname = some "media"; port = some (some 18097) }

abbrev own_url : Url
own_url = record { scheme = "http"; hostname = some "media"; port = some (some 8000) }

abbrev key_env : String → Option String
key_env name = if str_eq name "API_KEY" then some "secret" else none

-- A server with an API key, no administrator, and no token that decodes.
abbrev small_world : World
small_world = record {
  texts = plain_texts;
  urlparse = λ s. some proxy_url;
  jwt_decode = λ s. none;
  parse_int = λ s. none;
  getenv = key_env;
  security = none;
  proxy_base_url = none;
  users = some [];
}

abbrev request_with : String → (String → Option String) → HttpRequest
request_with path header = record {
  path = path;
  request_method = "GET";
  url = own_url;
  header = header;
  cookie = λ s. none;
  client_host = some "10.0.0.7";
}

abbrev key_header : String → String → Option String
key_header key name = if str_eq name "X-API-Key" then some key else none

abbrev no_header : String → Option String
no_header name = none

dispatch-key : (dispatch small_world (request_with "/api/tasks" (key_header "secret"))).0 ≡ passed
unfolding dispatch is_public_path is_dedicated_emby_proxy_request is_emby_proxy_path any keep
    resolve_auth_configuration load_security_config get_api_key_env_override first_set
    get_require_api_key_env_override extract_api_key check_token check_key validate_jwt_token
    verify_access_token compare_digest is_ascii can_bootstrap_init_admin
dispatch-key = refl

dispatch-wrong_key :
    (dispatch small_world (request_with "/api/tasks" (key_header "guess"))).0 ≡ forbidden
unfolding dispatch is_public_path is_dedicated_emby_proxy_request is_emby_proxy_path any keep
    resolve_auth_configuration load_security_config get_api_key_env_override first_set
    get_require_api_key_env_override extract_api_key check_token check_key validate_jwt_token
    verify_access_token compare_digest is_ascii can_bootstrap_init_admin
dispatch-wrong_key = refl

dispatch-no_key : (dispatch small_world (request_with "/api/tasks" no_header)).0 ≡ unauthorized
unfolding dispatch is_public_path is_dedicated_emby_proxy_request is_emby_proxy_path any keep
    resolve_auth_configuration load_security_config get_api_key_env_override first_set
    get_require_api_key_env_override extract_api_key check_token can_bootstrap_init_admin
dispatch-no_key = refl

forged_path : is_emby_proxy_path plain_texts "/api/emby/items/1" ≡ true
unfolding is_emby_proxy_path any keep
forged_path = refl

forged_bare : has_text "://" "media:18097" ≡ false
unfolding has_text
forged_bare = refl

some_host : ◌≢◌ {A = String} "media:18097" ""
some_host = ground (arith, eq_iff "media:18097" "")

named_host : ◌≢◌ {A = String} "media" ""
named_host = ground (arith, eq_iff "media" "")

dispatch-passed_example :
    IsDedicated small_world (request_with "/api/tasks" (key_header "secret"))
    ⊎ IsListed "/api/tasks"
    ⊎ IsBootstrap small_world (request_with "/api/tasks" (key_header "secret"))
    ⊎ ((configuration small_world).1 ≡ false)
    ⊎ IsCredential small_world (request_with "/api/tasks" (key_header "secret"))
dispatch-passed_example =
    dispatch-passed small_world (request_with "/api/tasks" (key_header "secret")) dispatch-key

forged_host_passes_example :
    dispatch small_world (record (request_with "/api/emby/items/1" no_header) {
      header = with_host "media:18097" no_header;
    })
    ≡ (passed, [])
forged_host_passes_example =
    forged_host_passes small_world (request_with "/api/emby/items/1" no_header) "media:18097"
      proxy_url forged_path refl some_host forged_bare refl refl named_host

abbrev post_header : String → Option String
post_header name =
    if str_eq name "X-API-Key"
    then some "secret"
    else if str_eq name "X-CSRF-Token"
    then some "t0"
    else none

abbrev csrf_cookie : String → Option String
csrf_cookie name = if str_eq name "csrf_token" then some "t0" else none

abbrev post_request : HttpRequest
post_request = record {
  path = "/api/tasks";
  request_method = "POST";
  url = own_url;
  header = post_header;
  cookie = csrf_cookie;
  client_host = some "10.0.0.7";
}

chain-post : chain small_world "fresh" post_request ≡ passed
unfolding chain dispatch is_public_path is_dedicated_emby_proxy_request is_emby_proxy_path any keep
    resolve_auth_configuration load_security_config get_api_key_env_override first_set
    get_require_api_key_env_override extract_api_key check_token check_key validate_jwt_token
    verify_access_token compare_digest is_ascii can_bootstrap_init_admin csrf_dispatch
    requires_csrf_validation validate_csrf_token get_or_create_csrf_token
chain-post = refl

chain-passed_example :
    IsDedicated small_world post_request
    ⊎ ((IsListed "/api/tasks"
          ⊎ IsBootstrap small_world post_request
          ⊎ ((configuration small_world).1 ≡ false)
          ⊎ IsCredential small_world post_request)
        × ((needs_token post_request ≡ false) ⊎ IsDoubled "fresh" post_request))
chain-passed_example = chain-passed small_world "fresh" post_request chain-post
