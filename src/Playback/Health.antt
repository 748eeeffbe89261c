-- ===== src/Playback/Health.antt =====
-- `PlaybackRouteHealthService` of app/services/playback_route_health_service.py. Times are those of
-- `monotonic()` in microseconds; `now` is the call of the time getter.
use Prim.Native.String.{◌++◌ as text_append}
use xzcccc_smart_media.Base.{
  ℕ, ◌+◌, seconds, String, Bool, true, false, not, ◌&&◌, ◌||◌, Option, none, some, [], ltb, leb,
  ◌==◌, if◌then◌else◌, str_eq,
}
use xzcccc_smart_media.Dict
use xzcccc_smart_media.Dict.{Dict}
use xzcccc_smart_media.Playback.Texts.{Texts}

pub record RouteHealthState : Type 0 where
  pub failure_count : ℕ
  pub sticky_until : ℕ
  pub last_failure_at : ℕ
  pub last_reason : String

abbrev pub new_state : RouteHealthState
new_state = record { failure_count = 0; sticky_until = 0; last_failure_at = 0; last_reason = "" }

-- What `_get_policy` reads of the configuration: values below 0 count as 0.
pub record Policy : Type 0 where
  pub threshold : ℕ
  pub ttl_sec : ℕ

-- `policy["threshold"] <= 0 or policy["ttl_sec"] <= 0`
abbrev pub is_off : Policy → Bool
is_off p = p.threshold == 0 || p.ttl_sec == 0

-- `value or ""`
abbrev pub or_empty : Option String → String
or_empty none = ""
or_empty (some s) = s

unfoldable pub build_route_key : Texts → String → Option String → Option String
build_route_key texts client_class direct_url =
    let client = texts.clean client_class in
    let host = texts.clean (texts.hostname (or_empty direct_url)) in
    if str_eq client "" || str_eq host ""
    then none
    else some (text_append client (text_append "::" host))

-- The answer for a known route, and whether its state is dropped.
unfoldable pub sticky_state : ℕ → RouteHealthState → Bool × Bool
sticky_state now s =
    if ltb now s.sticky_until then (true, false) else (false, not (s.sticky_until == 0))

unfoldable pub should_sticky_proxy :
    Texts
    → Policy
    → String
    → Option String
    → ℕ
    → Dict RouteHealthState
    → Dict RouteHealthState × Bool
unfolding sticky_state
should_sticky_proxy texts policy client_class direct_url now states =
    if is_off policy
    then (states, false)
    else elim (build_route_key texts client_class direct_url) [
      | none ↦ (states, false)
      | some key ↦ elim (Dict.get key states) [
        | none ↦ (states, false)
        | some s ↦
            let (sticky, drop) = sticky_state now s in
            (if drop then Dict.remove key states else states, sticky)
      ]
    ]

-- The state that a failure is counted in: a new one, if the last failure is too long ago.
unfoldable pub current_state : Policy → ℕ → Option RouteHealthState → RouteHealthState
current_state policy now none = new_state
current_state policy now (some s) =
    if not (s.last_failure_at == 0) && ltb (s.last_failure_at + seconds policy.ttl_sec) now
    then new_state
    else s

unfoldable pub count_failure : Policy → ℕ → String → RouteHealthState → RouteHealthState
count_failure policy now reason s =
    let count = s.failure_count + 1 in
    record {
      failure_count = count;
      sticky_until =
          if leb policy.threshold count then now + seconds policy.ttl_sec else s.sticky_until;
      last_failure_at = now;
      last_reason = reason;
    }

unfoldable pub record_direct_failure :
    Texts
    → Policy
    → String
    → Option String
    → String
    → ℕ
    → Dict RouteHealthState
    → Dict RouteHealthState
unfolding current_state count_failure
record_direct_failure texts policy client_class direct_url reason now states =
    if is_off policy then states else elim (build_route_key texts client_class direct_url) [
      | none ↦ states
      | some key ↦
          Dict.put key
            (count_failure policy now reason (current_state policy now (Dict.get key states)))
            states
    ]

unfoldable pub clear : Dict RouteHealthState → Dict RouteHealthState
clear states = []
