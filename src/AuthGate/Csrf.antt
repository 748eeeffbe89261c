-- ===== src/AuthGate/Csrf.antt =====
-- `CSRFMiddleware` of app/core/csrf_middleware.py, and the chain of the two middlewares as
-- `register_core_middleware` of app/config/middleware.py builds it: the one that is added last comes
-- first.
use xzcccc_smart_media.Base.{
  List, [], ◌∷◌, ◌≡◌, ◌≢◌, Bool, true, false, not, ◌||◌, if◌then◌else◌, String, str_eq, eq_iff,
  Option, none, some, any, arith, Bool-cases, Option-cases, ◌⊎◌, inl, inr,
}
use xzcccc_smart_media.AuthGate.Contract.{given_text}
use xzcccc_smart_media.AuthGate.Proxy.{HttpRequest, is_dedicated_emby_proxy_request}
use xzcccc_smart_media.AuthGate.Gate.{
  World, AuthVerdict, passed, forbidden, crashed, dispatch, compare_digest,
}
use xzcccc_smart_media.AuthGate.Entry.{
  IsDedicated, IsListed, IsBootstrap, IsCredential, configuration, dispatch-passed, given_text-some,
}

abbrev pub csrf_exempt_paths : List String
csrf_exempt_paths =
    "/api/auth/login" ∷ "/api/auth/refresh" ∷ "/api/auth/verify" ∷ "/api/auth/status"
    ∷ "/api/auth/init-admin" ∷ "/health" ∷ "/metrics" ∷ "/" ∷ []

abbrev pub csrf_safe_methods : List String
csrf_safe_methods = "GET" ∷ "HEAD" ∷ "OPTIONS" ∷ "TRACE" ∷ []

-- The token of the cookie, or else the one that `secrets.token_hex` has made.
unfoldable pub get_or_create_csrf_token : String → HttpRequest → String
get_or_create_csrf_token fresh r = elim (given_text (r.cookie "csrf_token")) [
  | some existing_token ↦ existing_token
  | none ↦ fresh
]

-- Where the request is none for the Emby proxy.
abbrev pub needs_token : HttpRequest → Bool
needs_token r =
    not (any (str_eq r.request_method) csrf_safe_methods || any (str_eq r.path) csrf_exempt_paths)

unfoldable pub requires_csrf_validation : World → HttpRequest → Option Bool
requires_csrf_validation w r =
    elim (is_dedicated_emby_proxy_request w.texts w.urlparse w.proxy_base_url r) [
      | none ↦ none
      | some true ↦ some false
      | some false ↦ some (needs_token r)
    ]

-- None where `compare_digest` raises.
unfoldable pub validate_csrf_token : HttpRequest → String → Option Bool
validate_csrf_token r expected_token = elim (given_text (r.header "X-CSRF-Token")) [
  | none ↦ some false
  | some header_token ↦ compare_digest header_token expected_token
]

-- The verdict, and the token that the answer sets as a cookie.
unfoldable pub csrf_dispatch : World → String → HttpRequest → AuthVerdict × Option String
csrf_dispatch w fresh r =
    let csrf_token = get_or_create_csrf_token fresh r in
    let cookie = elim (given_text (r.cookie "csrf_token")) as (λ o. Option String) [
      | some t ↦ none
      | none ↦ some csrf_token
    ] in
    elim (requires_csrf_validation w r) [
      | none ↦ (crashed, none)
      | some true ↦ elim (validate_csrf_token r csrf_token) [
        | none ↦ (crashed, none)
        | some true ↦ (passed, cookie)
        | some false ↦ (forbidden, cookie)
      ]
      | some false ↦ elim (is_dedicated_emby_proxy_request w.texts w.urlparse w.proxy_base_url r) [
        | some true ↦ (passed, none)
        | other ↦ (passed, cookie)
      ]
    ]

abbrev pub is_passed : AuthVerdict → Bool
is_passed passed = true
is_passed _ = false

-- Whether a request gets through both: the authentication, and then the CSRF check.
unfoldable pub chain : World → String → HttpRequest → AuthVerdict
chain w fresh r =
    let verdict = (dispatch w r).0 in
    if is_passed verdict then (csrf_dispatch w fresh r).0 else verdict

-- The header repeats the token of the cookie, or without a cookie the one that was just made.
abbrev pub IsDoubled : String → HttpRequest → Type 0
IsDoubled fresh r =
    (token : String) × (r.header "X-CSRF-Token" ≡ some token)
    × (token ≢ "")
    × ((r.cookie "csrf_token" ≡ some token)
        ⊎ ((given_text (r.cookie "csrf_token") ≡ none) × (token ≡ fresh)))

validate_csrf_token-IsDoubled :
    (fresh : String) (r : HttpRequest)
    → validate_csrf_token r (get_or_create_csrf_token fresh r) ≡ some true
    → IsDoubled fresh r
unfolding validate_csrf_token get_or_create_csrf_token compare_digest
validate_csrf_token-IsDoubled fresh r h =
    elim (Option-cases (given_text (r.header "X-CSRF-Token"))) [
      | inl missing ↦ absurd (ground arith)
      | inr (token, e) ↦
          let (sent, nonblank) = given_text-some (r.header "X-CSRF-Token") token e in
          elim (Option-cases (given_text (r.cookie "csrf_token"))) [
            | inl bare ↦ (token, sent, nonblank, inr (bare, ground (arith, eq_iff token fresh)))
            | inr (existing, there) ↦
                let (stored, x) = given_text-some (r.cookie "csrf_token") existing there in
                let same : token ≡ existing = ground (arith, eq_iff token existing) in
                (token, sent, nonblank, inl (rw same stored))
          ]
    ]

csrf_dispatch-passed :
    (w : World) (fresh : String) (r : HttpRequest)
    → (csrf_dispatch w fresh r).0 ≡ passed
    → IsDedicated w r ⊎ (needs_token r ≡ false) ⊎ IsDoubled fresh r
unfolding csrf_dispatch requires_csrf_validation
csrf_dispatch-passed w fresh r h =
    elim (Option-cases (is_dedicated_emby_proxy_request w.texts w.urlparse w.proxy_base_url r)) [
      | inl raised ↦ absurd (ground arith)
      | inr (true, e) ↦ inl e
      | inr (false, e) ↦ elim (Bool-cases (needs_token r)) [
        | inr free ↦ inr (inl free)
        | inl needs ↦ inr (inr (validate_csrf_token-IsDoubled fresh r (ground arith)))
      ]
    ]

-- A request that gets through the whole chain, and that does not count as one for the Emby proxy, has
-- passed both checks for a reason of its own: it is public, or made the first administrator from this
-- machine, or authentication is off, or it has a credential; and besides, it has a safe method or an
-- exempt path, or its CSRF header repeats the cookie's token (without a cookie: the token that the
-- server has just made and not sent yet).
pub chain-passed :
    (w : World) (fresh : String) (r : HttpRequest)
    → chain w fresh r ≡ passed
    → IsDedicated w r
      ⊎ ((IsListed r.path ⊎ IsBootstrap w r ⊎ ((configuration w).1 ≡ false) ⊎ IsCredential w r)
          × ((needs_token r ≡ false) ⊎ IsDoubled fresh r))
unfolding chain
chain-passed w fresh r h = elim (Bool-cases (is_passed (dispatch w r).0)) [
  | inr stopped ↦ absurd (ground arith)
  | inl through ↦
      let first = dispatch-passed w r (ground arith) in
      let second = csrf_dispatch-passed w fresh r (ground arith) in
      elim first [
        | inl dedicated ↦ inl dedicated
        | inr reason ↦ elim second [
          | inl dedicated ↦ inl dedicated
          | inr token ↦ inr (reason, token)
        ]
      ]
]
