-- ===== src/RateLimit/Route.antt =====
-- Where the limiter stands: the middleware of `setup_rate_limiting`, `limit` on a route,
-- `get_client_status` and `reset_client` of app/core/rate_limiter.py.
use Prim.Native.String.{◌++◌ as text_append}
use text.Mathlib.Text.{starts_with}
use text.Mathlib.TextLemmas.{append_cancel_left}
use xzcccc_smart_media.Base.{
  ℕ, ◌<◌, ◌≡◌, ◌≢◌, String, List, [], ◌∷◌, Bool, false, not, Option, if◌then◌else◌, keep, any,
  Bool-cases, inl, inr, str_eq, eq_iff, ◌∙◌, sym,
}
use xzcccc_smart_media.Dict
use xzcccc_smart_media.Dict.{Dict, get-put}
use xzcccc_smart_media.RateLimit.Client.{Request, is_safe, client_id, client_bucket}
use xzcccc_smart_media.RateLimit.Limiter.{
  RateLimitConfig, RateLimiter, Verdict, allowed, still_blocked, now_blocked, check_rate_limit,
  or_arg,
}
use mathlib.Core.Bool.{false≢true}
use xzcccc_smart_media.RateLimit.Cleanup.{IsBusy, check_keeps}

-- DEFAULT_SKIP_PATHS
abbrev skip_paths : List String
skip_paths =
    "/health" ∷ "/health/live" ∷ "/health/ready" ∷ "/ready" ∷ "/metrics" ∷ "/docs" ∷ "/openapi.json"
    ∷ "/api/auth/status" ∷ "/api/auth/me" ∷ []

unfoldable pub is_skipped : String → Bool
is_skipped path = any (λ p. str_eq p path) skip_paths

-- The request is passed on, or answered by status 429 with this `Retry-After`.
pub data Answer : Type 0 where
  passed_on : Answer
  too_many : ℕ → Answer

abbrev pub answer : Verdict → Answer
answer allowed = passed_on
answer (still_blocked n) = too_many n
answer (now_blocked n) = too_many n

unfoldable pub get_request_config : Request → RateLimiter → RateLimitConfig
get_request_config r l = if is_safe r.method then l.read_config else l.default_config

module _ (fingerprint : String → String) where
  unfoldable pub rate_limit_middleware : Request → ℕ → RateLimiter → RateLimiter × Answer
  rate_limit_middleware r now l =
      if is_skipped r.path
      then (l, passed_on)
      else let (l', verdict) =
          check_rate_limit (client_bucket fingerprint r) (get_request_config r l) now l in
        (l', answer verdict)

  -- The wrapper that `limit` puts around a route.
  unfoldable pub limited_route :
      Option ℕ → Option ℕ → Option ℕ → Request → ℕ → RateLimiter → RateLimiter × Answer
  limited_route requests secs block r now l =
      let config : RateLimitConfig = record {
        requests = or_arg requests l.default_config.requests;
        seconds = or_arg secs l.default_config.seconds;
        block_duration = or_arg block l.default_config.block_duration;
      } in
      let (l', verdict) = check_rate_limit (client_bucket fingerprint r) config now l in
      (l', answer verdict)

-- `_get_matching_state_keys`: the key itself, or else the keys that it is the client of.
unfoldable pub matches : String → RateLimiter → String → Bool
matches client_id l key =
    if Dict.contains client_id l.client_states
    then str_eq key client_id
    else starts_with key (text_append client_id ":")

unfoldable pub reset_client : String → RateLimiter → RateLimiter × Bool
unfolding matches
reset_client client_id l = (
  record l { client_states = keep (λ item. not (matches client_id l item.0)) l.client_states },
  any (λ item. matches client_id l item.0) l.client_states,
)

text_ne : (s t : String) → s ≢ t → str_eq s t ≡ false
text_ne s t h = elim (Bool-cases (str_eq s t)) [ inl e ↦ absurd (h ((eq_iff s t).0 e)) | inr e ↦ e ]

read≢write : (id : String) → text_append id ":read" ≢ text_append id ":write"
read≢write id e =
    false≢true ((eq_iff ":read" ":write").1 (append_cancel_left id ":read" ":write" e))

abbrev pub other_bucket : (String → String) → Request → String
other_bucket fingerprint r =
    text_append (client_id fingerprint r) (if is_safe r.method then ":write" else ":read")

client_bucket_ne :
    (fingerprint : String → String) (r : Request)
    → str_eq (client_bucket fingerprint r) (other_bucket fingerprint r) ≡ false
unfolding client_bucket
client_bucket_ne fingerprint r =
    let id = client_id fingerprint r in
    let ne = read≢write id in
    elim (Bool-cases (is_safe r.method)) [
      | inl safe ↦ rw safe (text_ne _ _ ne)
      | inr unsafe ↦ rw unsafe (text_ne _ _ (λ e. ne (sym e)))
    ]

-- Reading never uses up what a client may write, nor the other way round: a request whose method is
-- safe leaves the state of the client's write bucket as it was, and any other leaves its read
-- bucket. (Every state has a request, as after any checks, and the limit is positive.)
pub middleware_buckets :
    (fingerprint : String → String) (r : Request) (now : ℕ) (l : RateLimiter)
    → IsBusy l.client_states
    → 0 < (get_request_config r l).requests
    → Dict.get
        (other_bucket fingerprint r)
        (rate_limit_middleware fingerprint r now l).0.client_states
      ≡ Dict.get (other_bucket fingerprint r) l.client_states
unfolding rate_limit_middleware
middleware_buckets fingerprint r now l busy pos = elim (Bool-cases (is_skipped r.path)) [
  | inl skipped ↦ rw skipped
  | inr limited ↦ rw limited (
      (check_keeps (client_bucket fingerprint r) (get_request_config r l) now l pos busy).1
        (other_bucket fingerprint r)
      ∙ rw (client_bucket_ne fingerprint r))
]
