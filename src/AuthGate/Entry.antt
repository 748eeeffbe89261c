-- ===== src/AuthGate/Entry.antt =====
-- Who gets past the authentication.
use text.Mathlib.Text.{starts_with}
use xzcccc_smart_media.Base.{
  ℕ, ◌≡◌, ◌≢◌, refl, List, [], ◌∷◌, ◌++◌, Bool, true, false, ◌||◌, String, str_eq, eq_iff, Option,
  none, some, any, arith, Bool-cases, Option-cases, ◌⊎◌, inl, inr,
}
use xzcccc_smart_media.Login.Account.{User}
use xzcccc_smart_media.AuthGate.Contract.{
  given_text, text_or_empty, load_security_config, resolve_auth_configuration,
}
use xzcccc_smart_media.AuthGate.Proxy.{HttpRequest, is_dedicated_emby_proxy_request}
use xzcccc_smart_media.AuthGate.Gate.{
  World, Payload, public_paths, public_prefixes, auth_public_paths, local_hosts, extract_api_key,
  admin_exists, can_bootstrap_init_admin, is_public_path, access_subject, verify_access_token,
  get_by_id, validate_jwt_token, compare_digest, passed, check_key, check_token, dispatch,
}

-- The first administrator may be made from this machine as long as the database tells of none.
abbrev pub IsBootstrap : World → HttpRequest → Type 0
IsBootstrap w r =
    (users : List (ℕ × User)) × (w.users ≡ some users)
    × (any (λ row. str_eq row.1.role "admin") users ≡ false)
    × (r.path ≡ "/api/auth/init-admin")
    × (any (str_eq (text_or_empty r.client_host)) local_hosts ≡ true)

abbrev pub IsListed : String → Type 0
IsListed path =
    (any (str_eq path) (public_paths ++ auth_public_paths) ≡ true)
    ⊎ (any (starts_with path) public_prefixes ≡ true)

abbrev pub IsDedicated : World → HttpRequest → Type 0
IsDedicated w r = is_dedicated_emby_proxy_request w.texts w.urlparse w.proxy_base_url r ≡ some true

-- An access token of a user who is active.
abbrev pub IsToken : World → String → Type 0
IsToken w token =
    (p : Payload) × (s : String) × (user_id : ℕ) × (users : List (ℕ × User)) × (u : User)
    × (w.jwt_decode token ≡ some p)
    × (p.token_type ≡ some "access")
    × (p.sub ≡ some s)
    × (w.parse_int s ≡ some user_id)
    × (w.users ≡ some users)
    × (get_by_id user_id users ≡ some u)
    × (u.is_active ≡ true)

-- The expected key and the switch.
abbrev pub configuration : World → Option String × Bool
configuration w = resolve_auth_configuration w.texts w.getenv (load_security_config w.security)

abbrev pub IsCredential : World → HttpRequest → Type 0
IsCredential w r =
    (token : String) × (extract_api_key w.texts r ≡ some token)
    × (token ≢ "")
    × (IsToken w token ⊎ ((configuration w).0 ≡ some token))

any-append {ℓ} :
    {A : Type ℓ} (p : A → Bool) (xs ys : List A) → any p (xs ++ ys) ≡ (any p xs || any p ys)
unfolding any
any-append p [] ys = refl
any-append p (x ∷ xs) ys = ground (arith, any-append p xs ys)

pub given_text-some :
    (o : Option String) (s : String) → given_text o ≡ some s → (o ≡ some s) × (s ≢ "")
given_text-some none s h = absurd (ground arith)
given_text-some (some t) s h = ground (arith, eq_iff t "")

bootstrap_lem :
    (w : World) (r : HttpRequest)
    → r.path ≡ "/api/auth/init-admin"
    → can_bootstrap_init_admin w r ≡ true
    → IsBootstrap w r
unfolding can_bootstrap_init_admin admin_exists
bootstrap_lem w r here h = elim (Option-cases w.users) [
  | inl down ↦ ground arith
  | inr (users, up) ↦
      let rest : (any (λ (row : ℕ × User). str_eq row.1.role "admin") users ≡ false)
          × (any (str_eq (text_or_empty r.client_host)) local_hosts ≡ true) =
        ground (arith) in
      (users, up, rest.0, here, rest.1)
]

public_lem :
    (w : World) (r : HttpRequest)
    → is_public_path w r ≡ some true
    → IsDedicated w r ⊎ IsListed r.path ⊎ IsBootstrap w r
unfolding is_public_path
public_lem w r h =
    elim (Option-cases (is_dedicated_emby_proxy_request w.texts w.urlparse w.proxy_base_url r)) [
      | inl raised ↦ ground arith
      | inr (true, e) ↦ inl e
      | inr (false, e) ↦ elim (Bool-cases (any (str_eq r.path) public_paths)) [
        | inl listed ↦ inr (
            inl (inl (rw (any-append (str_eq r.path) public_paths auth_public_paths, listed) refl)))
        | inr not_public ↦ elim (Bool-cases (any (str_eq r.path) auth_public_paths)) [
          | inl listed ↦ inr (
              inl (
                inl (
                  rw (any-append (str_eq r.path) public_paths auth_public_paths, not_public, listed)
                    refl)))
          | inr not_auth ↦ elim (Bool-cases (any (starts_with r.path) public_prefixes)) [
            | inl under ↦ inr (inl (inr under))
            | inr not_under ↦
                let both : (str_eq r.path "/api/auth/init-admin" ≡ true)
                    × (can_bootstrap_init_admin w r ≡ true) =
                  ground arith in
                inr (inr (bootstrap_lem w r ((eq_iff _ _).0 both.0) both.1))
          ]
        ]
      ]
    ]

access_subject_lem :
    (p : Payload) (s : String)
    → access_subject p ≡ some s
    → (p.token_type ≡ some "access") × (p.sub ≡ some s)
unfolding access_subject
access_subject_lem p s h = elim (Option-cases p.token_type) [
  | inl bare ↦ ground arith
  | inr (kind, e) ↦
      let both : (str_eq kind "access" ≡ true) × (given_text p.sub ≡ some s) = ground arith in
      (ground (arith, eq_iff kind "access"), (given_text-some p.sub s both.1).0)
]

verify_lem :
    (w : World) (token : String) (user_id : ℕ)
    → verify_access_token w token ≡ some user_id
    → (p : Payload) × (s : String) × (w.jwt_decode token ≡ some p)
      × (p.token_type ≡ some "access")
      × (p.sub ≡ some s)
      × (w.parse_int s ≡ some user_id)
unfolding verify_access_token
verify_lem w token user_id h = elim (Option-cases (w.jwt_decode token)) [
  | inl bad ↦ absurd (ground arith)
  | inr (p, decoded) ↦ elim (Option-cases (access_subject p)) [
    | inl other ↦ absurd (ground arith)
    | inr (s, e) ↦
        let (kind, sub) = access_subject_lem p s e in (p, s, decoded, kind, sub, ground arith)
  ]
]

token_lem : (w : World) (token : String) → validate_jwt_token w token ≡ true → IsToken w token
unfolding validate_jwt_token
token_lem w token h = elim (Option-cases (verify_access_token w token)) [
  | inl bad ↦ absurd (ground arith)
  | inr (user_id, e) ↦ elim (Option-cases w.users) [
    | inl down ↦ absurd (ground arith)
    | inr (users, up) ↦ elim (Option-cases (get_by_id user_id users)) [
      | inl unknown ↦ absurd (ground arith)
      | inr (u, found) ↦
          let (p, s, decoded, kind, sub, number) = verify_lem w token user_id e in
          (p, s, user_id, users, u, decoded, kind, sub, number, up, found, ground arith)
    ]
  ]
]

check_key_lem :
    (w : World) (r : HttpRequest) (token : String) (expected : Option String)
    → (check_key w r token expected).0 ≡ passed
    → expected ≡ some token
unfolding check_key compare_digest
check_key_lem w r token none h = absurd (ground arith)
check_key_lem w r token (some key) h = ground (arith, eq_iff token key)

check_token_lem :
    (w : World) (r : HttpRequest) (given expected : Option String)
    → (check_token w r (given_text given) expected).0 ≡ passed
    → (token : String) × (given ≡ some token)
      × (token ≢ "")
      × (IsToken w token ⊎ (expected ≡ some token))
unfolding check_token
check_token_lem w r given expected h = elim (Option-cases (given_text given)) [
  | inl blank ↦ absurd (ground arith)
  | inr (token, e) ↦
      let (same, nonblank) = given_text-some given token e in
      elim (Bool-cases (validate_jwt_token w token)) [
        | inl valid ↦ (token, same, nonblank, inl (token_lem w token valid))
        | inr invalid ↦
            let key : given_text expected ≡ some token =
              check_key_lem w r token (given_text expected) (ground arith) in
            (token, same, nonblank, inr (given_text-some expected token key).0)
      ]
]

-- A request that passes the middleware is one of these: a request that counts as one for the Emby
-- proxy; a request of a listed path or prefix; the making of the first administrator from this
-- machine while the database tells of none; any request while authentication is switched off; or a
-- request whose token is not empty and is either a decoded access token of a user who is in the
-- database and active, or the expected key.
pub dispatch-passed :
    (w : World) (r : HttpRequest)
    → (dispatch w r).0 ≡ passed
    → IsDedicated w r
      ⊎ IsListed r.path
      ⊎ IsBootstrap w r
      ⊎ ((configuration w).1 ≡ false)
      ⊎ IsCredential w r
unfolding dispatch
dispatch-passed w r h = elim (Option-cases (is_public_path w r)) [
  | inl raised ↦ absurd (ground arith)
  | inr (true, e) ↦ elim (public_lem w r e) [
    | inl a ↦ inl a
    | inr (inl b) ↦ inr (inl b)
    | inr (inr c) ↦ inr (inr (inl c))
  ]
  | inr (false, e) ↦ elim (Bool-cases (configuration w).1) [
    | inr off ↦ inr (inr (inr (inl off)))
    | inl on ↦ inr (
        inr (
          inr (
            inr (
              check_token_lem w r (extract_api_key w.texts r) (configuration w).0 (ground arith)))))
  ]
]
