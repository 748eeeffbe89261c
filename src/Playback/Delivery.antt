-- ===== src/Playback/Delivery.antt =====
-- When a file is delivered directly.
use xzcccc_smart_media.Base.{
  ℕ, ◌+◌, ◌≡◌, refl, seconds, String, List, ◌∷◌, Bool, true, false, not, ◌&&◌, Option, none, some,
  ltb, leb, length, Bool-cases, inl, inr, ◌∙◌, ap,
}
use xzcccc_smart_media.Dict
use xzcccc_smart_media.Dict.{Dict}
use xzcccc_smart_media.Playback.Texts.{Texts}
use xzcccc_smart_media.Playback.Health.{
  RouteHealthState, is_off, build_route_key, should_sticky_proxy,
}
use xzcccc_smart_media.Playback.Sticky.{record_failures, Close, final, sticky_after_failures}
use xzcccc_smart_media.Playback.Decision.{
  Mode, direct, PlaybackConfig, Client, looks_like_web_client, classify_client,
  should_force_proxy_by_client, should_force_proxy_by_host, decide_delivery_mode,
}

abbrev pub is_direct : Mode → Bool
is_direct direct = true
is_direct _ = false

-- The class that a delivery is decided for.
abbrev pub delivery_class : Texts → Client → String
delivery_class texts c = classify_client texts (looks_like_web_client texts c) c

-- The configuration leaves direct delivery to this client from this address open.
abbrev pub is_open : Texts → PlaybackConfig → Client → Option String → Bool
is_open texts config c url =
    config.is_direct_first
    && not (should_force_proxy_by_client texts config (delivery_class texts c))
    && not (should_force_proxy_by_host texts config url)

-- Delivery is direct exactly if the configuration leaves it open and the route is not sticky.
direct_iff :
    (texts : Texts) (config : PlaybackConfig) (c : Client) (url : Option String) (now : ℕ)
    (states : Dict RouteHealthState)
    → is_direct (decide_delivery_mode texts config c url now states).1.mode ≡ (
        is_open texts config c url
        && not (should_sticky_proxy texts config.health (delivery_class texts c) url now states).1)
unfolding decide_delivery_mode should_force_proxy_by_client should_force_proxy_by_host
direct_iff texts config c url now states = elim (Bool-cases config.is_direct_first) [
  | inr off ↦ rw off refl
  | inl on ↦
      elim (Bool-cases (should_force_proxy_by_client texts config (delivery_class texts c))) [
        | inl forced ↦ rw (on, forced) refl
        | inr free ↦ elim (Bool-cases (should_force_proxy_by_host texts config url)) [
          | inl forced ↦ rw (on, free, forced) refl
          | inr other ↦
              elim (Bool-cases
                (should_sticky_proxy texts config.health (delivery_class texts c) url now
                  states).1) [
                    | inl sticky ↦ rw (on, free, other, sticky) refl
                    | inr healthy ↦ rw (on, free, other, healthy) refl
                  ]
        ]
      ]
]

-- Of a route with a key of which nothing is known, under a policy that is on, after direct failures
-- that follow one another within the time to live: the route is delivered directly exactly if the
-- configuration leaves that open, and the failures are fewer than the threshold or the time is not
-- before the last one's plus the time to live.
pub delivery_after_failures :
    (texts : Texts) (config : PlaybackConfig) (c : Client) (url : Option String) (key : String)
    (first now : ℕ) (later : List ℕ) (states : Dict RouteHealthState)
    → build_route_key texts (delivery_class texts c) url ≡ some key
    → is_off config.health ≡ false
    → Dict.get key states ≡ none
    → Close texts config.health (delivery_class texts c) url first later
    → is_direct
        (decide_delivery_mode texts config c url now (
          record_failures texts config.health
            (delivery_class texts c)
            url
            (first ∷ later)
            states)).1.mode
      ≡ (is_open texts config c url
          && not (
              leb config.health.threshold (length (first ∷ later))
              && ltb now (
                  final texts config.health (delivery_class texts c) url first later
                  + seconds config.health.ttl_sec)))
delivery_after_failures texts config c url key first now later states route on gone close =
    let sticky =
      sticky_after_failures texts config.health (delivery_class texts c) url key route on first now
        later states gone close in
    let failed =
      record_failures texts config.health (delivery_class texts c) url (first ∷ later) states in
    direct_iff texts config c url now failed ∙ ap (λ b. is_open texts config c url && not b) sticky
