-- ===== src/RateLimit/Limiter.antt =====
-- `RateLimiter` of app/core/rate_limiter.py: `_check_rate_limit`, the cleanup, and the queries and
-- resets by client. `now` is the call of `time.time()` (a check makes two of them, one in the
-- cleanup).
use xzcccc_smart_media.Base.{
  ℕ, ◌+◌, ◌-◌, ◌/◌, seconds, String, List, [], ◌∷◌, ◌++◌, Bool, true, false, not, ◌&&◌, Option,
  none, some, ltb, leb, if◌then◌else◌, or_default, keep, length,
}
use xzcccc_smart_media.Dict
use xzcccc_smart_media.Dict.{Dict}

pub record RateLimitConfig : Type 0 where
  pub requests : ℕ
  pub seconds : ℕ
  pub block_duration : ℕ

-- `requests` holds the times of the requests that were let through.
pub record ClientState : Type 0 where
  pub requests : List ℕ
  pub blocked_until : ℕ
  pub total_requests : ℕ
  pub blocked_count : ℕ

abbrev pub new_client : ClientState
new_client = record { requests = []; blocked_until = 0; total_requests = 0; blocked_count = 0 }

pub record RateLimiter : Type 0 where
  pub default_config : RateLimitConfig
  pub read_config : RateLimitConfig
  pub client_states : Dict ClientState
  pub cleanup_interval : ℕ
  pub last_cleanup : ℕ

-- An optional argument, 0 or None for the default.
abbrev pub or_arg : Option ℕ → ℕ → ℕ
or_arg none d = d
or_arg (some n) d = or_default n d

-- `__init__`
unfoldable pub init : ℕ → ℕ → ℕ → Option ℕ → Option ℕ → Option ℕ → ℕ → RateLimiter
init requests secs block read_requests read_seconds read_block now = record {
  default_config = record { requests = requests; seconds = secs; block_duration = block };
  read_config = record {
    requests = or_arg read_requests requests;
    seconds = or_arg read_seconds secs;
    block_duration = or_arg read_block block;
  };
  client_states = [];
  cleanup_interval = 300;
  last_cleanup = now;
}

-- Allowed; or refused, with the seconds to wait, because the client is blocked already or is
-- blocked from now on.
pub data Verdict : Type 0 where
  allowed : Verdict
  still_blocked : ℕ → Verdict
  now_blocked : ℕ → Verdict

-- `[t for t in state.requests if t > window_start]`, with `window_start = now - config.seconds`
abbrev pub recent : RateLimitConfig → ℕ → List ℕ → List ℕ
recent config now requests = keep (λ t. ltb now (t + seconds config.seconds)) requests

-- `_check_rate_limit` on the state of the client
unfoldable pub check_client : RateLimitConfig → ℕ → ClientState → ClientState × Verdict
check_client config now s =
    if ltb now s.blocked_until
    then (s, still_blocked ((s.blocked_until - now) / 1000000))
    else if leb config.requests (length (recent config now s.requests))
    then (
      record s {
        requests = recent config now s.requests;
        blocked_until = now + seconds config.block_duration;
        blocked_count = s.blocked_count + 1;
      },
      now_blocked config.block_duration,
    )
    else (
      record s {
        requests = recent config now s.requests ++ now ∷ [];
        total_requests = s.total_requests + 1;
      },
      allowed,
    )

-- `state.blocked_until < now and not state.requests`
abbrev pub is_idle : ℕ → ClientState → Bool
is_idle now s = ltb s.blocked_until now && elim s.requests [ [] ↦ true | _ ∷ _ ↦ false ]

-- `_cleanup_if_needed`
unfoldable pub cleanup_if_needed : ℕ → RateLimiter → RateLimiter
cleanup_if_needed now l =
    if ltb now (l.last_cleanup + seconds l.cleanup_interval) then l else record l {
      last_cleanup = now;
      client_states = keep (λ item. not (is_idle now item.1)) l.client_states;
    }

-- `self._client_states[client_id]` on a defaultdict
abbrev pub or_new : Option ClientState → ClientState
or_new none = new_client
or_new (some s) = s

abbrev pub state_of : String → RateLimiter → ClientState
state_of client_id l = or_new (Dict.get client_id l.client_states)

unfoldable pub check_rate_limit : String → RateLimitConfig → ℕ → RateLimiter → RateLimiter × Verdict
unfolding check_client cleanup_if_needed
check_rate_limit client_id config now l =
    let l' = cleanup_if_needed now l in
    let (s, verdict) = check_client config now (state_of client_id l') in
    (record l' { client_states = Dict.put client_id s l'.client_states }, verdict)
