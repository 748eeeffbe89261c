-- ===== src/RateLimit/Client.antt =====
-- Who a request counts for: `_get_client_id` and `_get_client_bucket` of app/core/rate_limiter.py.
use Prim.Native.String.{◌++◌ as text_append}
use xzcccc_smart_media.Base.{String, Bool, ◌||◌, Option, none, some, if◌then◌else◌, str_eq}

-- What the limiter reads of a request. `method` is `request.method.upper()`; `bearer` is what
-- follows "Bearer " in the Authorization header, if the header begins so; `forwarded` is the first
-- address of X-Forwarded-For, stripped. A header that is missing or empty is None.
pub record Request : Type 0 where
  pub method : String
  pub path : String
  pub api_key : Option String
  pub bearer : Option String
  pub auth_cookie : Option String
  pub forwarded : Option String
  pub real_ip : Option String
  pub client_host : Option String

-- SAFE_METHODS
unfoldable pub is_safe : String → Bool
is_safe m = str_eq m "GET" || str_eq m "HEAD" || str_eq m "OPTIONS"

-- `first or second or ...` over what may be missing
abbrev pub or_else : Option String → String → String
or_else none rest = rest
or_else (some s) _ = s

abbrev pub prefixed : String → Option String → Option String
prefixed p none = none
prefixed p (some s) = some (text_append p s)

-- `_fingerprint_token` is a digest that hashlib makes.
module _ (fingerprint : String → String) where
  unfoldable pub client_id : Request → String
  client_id r = or_else (prefixed "api:" r.api_key) (
      or_else (prefixed "user:" (elim r.bearer [ none ↦ none | some t ↦ some (fingerprint t) ])) (
        or_else
          (prefixed "user:" (elim r.auth_cookie [ none ↦ none | some t ↦ some (fingerprint t) ]))
          (or_else (prefixed "ip:" r.forwarded) (
            or_else (prefixed "ip:" r.real_ip)
              (or_else (prefixed "ip:" r.client_host) "ip:unknown")))))

  -- Reads and writes of one client are counted apart.
  unfoldable pub client_bucket : Request → String
  client_bucket r = text_append (client_id r) (if is_safe r.method then ":read" else ":write")
