-- ===== src/Playback/Tests.antt =====
-- Runs of the playback services on concrete input.
use xzcccc_smart_media.Base.{◌≡◌, refl, [], ◌∷◌, true, false, none, some, str_eq, arith, any}
use xzcccc_smart_media.Dict
use xzcccc_smart_media.Dict.{Dict}
use xzcccc_smart_media.Playback.Texts.{Texts}
use xzcccc_smart_media.Playback.Health.{RouteHealthState, Policy, build_route_key}
use xzcccc_smart_media.Playback.Sticky.{record_failures}
use xzcccc_smart_media.Playback.Decision.{
  normalized, cleaned, join, PlaybackConfig, Client, looks_like_web_client, classify_client,
  should_force_proxy_by_client, should_force_proxy_by_host, decide_delivery_mode,
}
use xzcccc_smart_media.Playback.Delivery.{is_direct, delivery_class, delivery_after_failures}
use xzcccc_smart_media.Playback.Segment.{FirstSegmentCacheEntry, SegmentConfig}

-- Texts that are clean already.
abbrev plain : Texts
plain = record {
  clean = λ s. s;
  lower = λ s. s;
  hostname = λ s. s;
  includes = λ a b. str_eq a b;
  matches = λ a b. str_eq a b;
}

abbrev policy : Policy
policy = record { threshold = 2; ttl_sec = 60 }

abbrev config : PlaybackConfig
config = record {
  is_direct_first = true;
  force_proxy_clients = "old tv" ∷ [];
  force_proxy_hosts = [];
  health = policy;
}

abbrev player : Client
player = record { client_name = some "Infuse"; device_name = none; user_agent = none }

-- Two failures within a minute: the route is sticky for a minute after the second.
abbrev failed : Dict RouteHealthState
failed = record_failures plain policy "Infuse" (some "host") (1000000 ∷ 30000000 ∷ []) []

delivery_after_failures_example :
    is_direct
      (decide_delivery_mode plain config player (some "host") 80000000 (
        record_failures plain policy
          (delivery_class plain player)
          (some "host")
          (1000000 ∷ 30000000 ∷ [])
          [])).1.mode
    ≡ false
unfolding build_route_key classify_client looks_like_web_client normalized cleaned join any
    should_force_proxy_by_client should_force_proxy_by_host
delivery_after_failures_example =
    delivery_after_failures plain config player (some "host") "Infuse::host" 1000000 80000000
      (30000000 ∷ []) [] refl refl (unfold Dict.get in refl) (omega arith, omega arith, tt)

abbrev segment : FirstSegmentCacheEntry
segment = record {
  data_bytes = 1 ∷ 2 ∷ [];
  total_length = 9;
  content_type = "";
  accept_ranges = "";
  etag = none;
  last_modified = none;
  expires_at = 0;
}

abbrev segments : SegmentConfig
segments = record {
  first_segment_cache_enabled = true;
  first_segment_cache_mb = 1;
  first_segment_cache_ttl_sec = 60;
}
