-- ===== src/Playback/Decision.antt =====
-- `PlaybackDecisionService` of app/services/playback_decision_service.py.
use Prim.Native.String.{◌++◌ as text_append}
use xzcccc_smart_media.Base.{
  ℕ, String, List, [], ◌∷◌, Bool, true, false, not, ◌||◌, Option, if◌then◌else◌, str_eq, any,
}
use xzcccc_smart_media.Dict.{Dict}
use xzcccc_smart_media.Playback.Texts.{Texts}
use xzcccc_smart_media.Playback.Health.{
  RouteHealthState, Policy, or_empty, should_sticky_proxy, record_direct_failure,
}

pub data Mode : Type 0 where
  emby_stream : Mode
  stable : Mode
  legacy_redirect : Mode
  proxy : Mode
  direct : Mode

pub data Reason : Type 0 where
  web_client : Reason
  force_proxy_client : Reason
  stable_entry : Reason
  redirected : Reason
  direct_disabled : Reason
  force_proxy_host : Reason
  sticky_downgrade : Reason
  direct_first : Reason

pub record PlaybackDecision : Type 0 where
  pub mode : Mode
  pub reason : Reason
  pub client_class : String

-- What the service reads of the configuration's `playback` part.
pub record PlaybackConfig : Type 0 where
  pub is_direct_first : Bool
  pub force_proxy_clients : List String
  pub force_proxy_hosts : List String
  pub health : Policy

-- What a request says of its client.
pub record Client : Type 0 where
  pub client_name : Option String
  pub device_name : Option String
  pub user_agent : Option String

abbrev pub web_client_hints : List String
web_client_hints =
    "emby web" ∷ "jellyfin web" ∷ "web" ∷ "chrome" ∷ "edge" ∷ "firefox" ∷ "safari" ∷ "browser" ∷ []

-- `" ".join(parts)`
unfoldable pub join : List String → String
join [] = ""
join (s ∷ []) = s
join (s ∷ t ∷ rest) = text_append s (text_append " " (join (t ∷ rest)))

-- `value.strip().lower()` of the values where it is not empty.
unfoldable pub cleaned : Texts → List String → List String
cleaned texts [] = []
cleaned texts (s ∷ rest) =
    let c = texts.clean s in
    let others = cleaned texts rest in if str_eq c "" then others else c ∷ others

unfoldable pub normalized : Texts → Client → String
normalized texts c =
    join
      (cleaned texts (or_empty c.client_name ∷ or_empty c.device_name ∷ or_empty c.user_agent ∷ []))

unfoldable pub looks_like_web_client : Texts → Client → Bool
looks_like_web_client texts c =
    let words = normalized texts c in
    if str_eq words "" then false else any (λ hint. texts.includes hint words) web_client_hints

unfoldable pub classify_client : Texts → Bool → Client → String
classify_client texts true c = "web-browser"
classify_client texts false c =
    let words = normalized texts c in if str_eq words "" then "unknown" else words

unfoldable pub should_force_proxy_by_client : Texts → PlaybackConfig → String → Bool
should_force_proxy_by_client texts config client_class =
    any (λ token. texts.includes token (texts.lower client_class))
      (cleaned texts config.force_proxy_clients)

unfoldable pub should_force_proxy_by_host : Texts → PlaybackConfig → Option String → Bool
should_force_proxy_by_host texts config direct_url =
    let host = texts.lower (texts.hostname (or_empty direct_url)) in
    if str_eq (or_empty direct_url) "" || str_eq host ""
    then false
    else any (λ pattern. texts.matches host pattern) (cleaned texts config.force_proxy_hosts)

unfoldable pub decide_hook_mode : Texts → PlaybackConfig → Bool → Client → Bool → PlaybackDecision
decide_hook_mode texts config is_web_client c has_stable_url =
    let client_class = classify_client texts is_web_client c in
    let decide : Mode → Reason → PlaybackDecision =
      λ m r. record { mode = m; reason = r; client_class = client_class } in
    if is_web_client
    then decide emby_stream web_client
    else if should_force_proxy_by_client texts config client_class
    then decide emby_stream force_proxy_client
    else if has_stable_url
    then decide stable stable_entry
    else decide legacy_redirect redirected

-- The decision, and the states of the routes: asking for a route may drop its state.
unfoldable pub decide_delivery_mode :
    Texts
    → PlaybackConfig
    → Client
    → Option String
    → ℕ
    → Dict RouteHealthState
    → Dict RouteHealthState × PlaybackDecision
decide_delivery_mode texts config c direct_url now states =
    let client_class = classify_client texts (looks_like_web_client texts c) c in
    let decide : Mode → Reason → PlaybackDecision =
      λ m r. record { mode = m; reason = r; client_class = client_class } in
    if not config.is_direct_first
    then (states, decide proxy direct_disabled)
    else if should_force_proxy_by_client texts config client_class
    then (states, decide proxy force_proxy_client)
    else if should_force_proxy_by_host texts config direct_url
    then (states, decide proxy force_proxy_host)
    else let (states', sticky) =
        should_sticky_proxy texts config.health client_class direct_url now states in
      (states', if sticky then decide proxy sticky_downgrade else decide direct direct_first)

unfoldable pub record_failure :
    Texts
    → PlaybackConfig
    → Client
    → Option String
    → String
    → ℕ
    → Dict RouteHealthState
    → Dict RouteHealthState
record_failure texts config c direct_url reason now states =
    record_direct_failure texts config.health
      (classify_client texts (looks_like_web_client texts c) c) direct_url reason now states
