-- ===== src/AuthGate/Proxy.antt =====
-- app/core/emby_proxy_request.py: the requests that are meant for the Emby proxy of their own port.
use Prim.Native.String.{[] as nil, ◌∷◌ as ◌▸◌, ◌++◌ as ◌⧺◌}
use text.Mathlib.Text.{starts_with}
use xzcccc_smart_media.Base.{
  ℕ, List, [], ◌∷◌, Bool, false, not, ◌&&◌, ◌||◌, ◌==◌, if◌then◌else◌, String, str_eq, Option, none,
  some, any, map, keep, or_default,
}
use xzcccc_smart_media.AuthGate.Contract.{AuthTexts, text_or_empty, given_text}

-- What `urlparse` finds: a port is none where reading it raises ValueError.
pub record Url : Type 0 where
  pub scheme : String
  pub hostname : Option String
  pub port : Option (Option ℕ)

-- A request, as Starlette gives it.
pub record HttpRequest : Type 0 where
  pub path : String
  pub request_method : String
  pub url : Url
  pub header : String → Option String
  pub cookie : String → Option String
  pub client_host : Option String

unfoldable pub has_text : String → String → Bool
has_text part nil = str_eq part ""
has_text part (c ▸ s) = starts_with (c ▸ s) part || has_text part s

abbrev pub default_port : String → ℕ
default_port scheme = if str_eq scheme "https" then 443 else 80

abbrev pub no_host : String × ℕ
no_host = ("", 0)

abbrev pub port_or : String → String → Option (Option ℕ) → String × ℕ
port_or host scheme none = no_host
port_or host scheme (some none) = (host, default_port scheme)
port_or host scheme (some (some port)) = (host, or_default port (default_port scheme))

unfoldable pub host_of : AuthTexts → Url → String × ℕ
host_of texts u =
    let host = texts.lower (text_or_empty u.hostname) in
    if str_eq host "" then no_host else port_or host u.scheme u.port

-- None where `urlparse` raises.
unfoldable pub parse_host_port :
    AuthTexts → (String → Option Url) → String → String → Option (String × ℕ)
parse_host_port texts urlparse url_or_host scheme_hint =
    let text = texts.strip url_or_host in
    if str_eq text ""
    then some no_host
    else elim (urlparse (if has_text "://" text then text else scheme_hint ⧺ "://" ⧺ text)) [
      | none ↦ none
      | some u ↦ some (host_of texts u)
    ]

-- Without a Host header the request's own address counts.
unfoldable pub own_host : AuthTexts → Url → String × ℕ
own_host texts u = elim (given_text u.hostname) [
  | none ↦ no_host
  | some host ↦ port_or (texts.lower host) u.scheme u.port
]

unfoldable pub request_host_port :
    AuthTexts → (String → Option Url) → HttpRequest → Option (String × ℕ)
request_host_port texts urlparse r =
    let host_header = texts.strip (text_or_empty (r.header "host")) in
    if str_eq host_header ""
    then some (own_host texts r.url)
    else elim (parse_host_port texts urlparse host_header r.url.scheme) [
      | none ↦ none
      | some (host, port) ↦ some (if str_eq host "" then no_host else (host, port))
    ]

abbrev pub emby_proxy_prefixes : List String
emby_proxy_prefixes =
    "/emby" ∷ "/items" ∷ "/users" ∷ "/videos" ∷ "/audio" ∷ "/system" ∷ "/sessions"
    ∷ "/embywebsocket" ∷ []

abbrev pub api_emby_prefixes : List String
api_emby_prefixes =
    map (λ p. "/api/emby" ⧺ p) (keep (λ p. not (str_eq p "/emby")) emby_proxy_prefixes)

unfoldable pub is_emby_proxy_path : AuthTexts → String → Bool
is_emby_proxy_path texts path =
    let stripped = texts.strip path in
    let normalized = if str_eq stripped "" then "/" else stripped in
    let lowered = texts.lower normalized in
    str_eq normalized "/"
    || any (starts_with lowered) emby_proxy_prefixes
    || any (starts_with lowered) api_emby_prefixes

-- The configured `emby.proxy_base_url`, none where it cannot be read, compared with the host.
unfoldable pub is_configured_proxy :
    AuthTexts → (String → Option Url) → Option String → String → String × ℕ → Bool
is_configured_proxy texts urlparse base_url scheme (req_host, req_port) =
    let configured_proxy = texts.strip (text_or_empty base_url) in
    if str_eq configured_proxy ""
    then false
    else elim (parse_host_port texts urlparse configured_proxy scheme) [
      | none ↦ false
      | some (proxy_host, proxy_port) ↦ str_eq req_host proxy_host && req_port == proxy_port
    ]

-- None where the exception of `urlparse` leaves the function.
unfoldable pub is_dedicated_emby_proxy_request :
    AuthTexts → (String → Option Url) → Option String → HttpRequest → Option Bool
is_dedicated_emby_proxy_request texts urlparse base_url r =
    if not (is_emby_proxy_path texts r.path)
    then some false
    else elim (request_host_port texts urlparse r) [
      | none ↦ none
      | some (req_host, req_port) ↦ some (
          if str_eq req_host ""
          then false
          else (req_port == 18097)
            || is_configured_proxy texts urlparse base_url r.url.scheme (req_host, req_port))
    ]
