-- ===== src/Playback/Segment.antt =====
-- `FirstSegmentCacheService` of app/services/first_segment_cache_service.py. Times are those of
-- `monotonic()` in microseconds, the bytes of a segment are a list of numbers.
use xzcccc_smart_media.Base.{
  ℕ, ◌+◌, ◌*◌, ◌≡◌, refl, seconds, String, List, [], ◌∷◌, Bool, true, false, not, ◌&&◌, ◌||◌,
  Option, none, some, ltb, leb, ◌==◌, if◌then◌else◌, length, keep, str_eq, Bool-cases, inl, inr,
  arith,
}
use xzcccc_smart_media.Dict
use xzcccc_smart_media.Dict.{Dict, IsDict, get-put, IsDict-put, get-keep}

pub record FirstSegmentCacheEntry : Type 0 where
  pub data_bytes : List ℕ
  pub total_length : ℕ
  pub content_type : String
  pub accept_ranges : String
  pub etag : Option String
  pub last_modified : Option String
  pub expires_at : ℕ

-- What the service reads of the configuration; values below 0 count as 0.
pub record SegmentConfig : Type 0 where
  pub first_segment_cache_enabled : Bool
  pub first_segment_cache_mb : ℕ
  pub first_segment_cache_ttl_sec : ℕ

abbrev pub Entries : Type 0
Entries = Dict FirstSegmentCacheEntry

abbrev pub get_segment_size_bytes : SegmentConfig → ℕ
get_segment_size_bytes config = config.first_segment_cache_mb * 1048576

abbrev pub is_enabled : SegmentConfig → Bool
is_enabled config = config.first_segment_cache_enabled && ltb 0 (get_segment_size_bytes config)

unfoldable pub prune_expired : ℕ → Entries → Entries
prune_expired now entries = keep (λ item. not (leb item.1.expires_at now)) entries

-- The entries and the answer.
unfoldable pub get_segment :
    SegmentConfig → String → ℕ → Entries → Entries × Option FirstSegmentCacheEntry
get_segment config key now entries =
    let live = prune_expired now entries in
    if is_enabled config then (live, Dict.get key live) else (entries, none)

-- `value or default`
abbrev pub or_text : String → String → String
or_text s default = if str_eq s "" then default else s

abbrev pub is_empty : List ℕ → Bool
is_empty [] = true
is_empty (_ ∷ _) = false

-- The entry that `put` builds; the keyword arguments are the fields of `given`.
unfoldable pub new_entry : SegmentConfig → FirstSegmentCacheEntry → ℕ → FirstSegmentCacheEntry
new_entry config given now = record {
  data_bytes = given.data_bytes;
  total_length = given.total_length;
  content_type = or_text given.content_type "application/octet-stream";
  accept_ranges = or_text given.accept_ranges "bytes";
  etag = given.etag;
  last_modified = given.last_modified;
  expires_at = now + seconds config.first_segment_cache_ttl_sec;
}

unfoldable pub put_segment : SegmentConfig → String → FirstSegmentCacheEntry → ℕ → Entries → Entries
put_segment config key given now entries =
    if not (is_enabled config)
    then entries
    else if config.first_segment_cache_ttl_sec == 0 || is_empty given.data_bytes
    then entries
    else Dict.put key (new_entry config given now) entries

unfoldable pub clear_segments : Entries → Entries
clear_segments entries = []

-- The bytes that `get_stats` counts.
abbrev pub total_bytes : Entries → ℕ
total_bytes [] = 0
total_bytes ((_, e) ∷ rest) = length e.data_bytes + total_bytes rest

-- A segment that is put with data, while the service is enabled and the time to live is not zero, is
-- found under its key until the time to live is over and not later, with the defaults that `put`
-- fills in; what is found under every other key is what was found before.
pub get-put_segment :
    (config : SegmentConfig) (key other : String) (given : FirstSegmentCacheEntry) (put_at now : ℕ)
    (entries : Entries)
    → IsDict entries
    → is_enabled config ≡ true
    → (config.first_segment_cache_ttl_sec == 0) ≡ false
    → is_empty given.data_bytes ≡ false
    → (get_segment config other now (put_segment config key given put_at entries)).1 ≡ (
        if str_eq key other
        then (if ltb now (put_at + seconds config.first_segment_cache_ttl_sec)
            then some (new_entry config given put_at)
            else none)
        else (get_segment config other now entries).1)
unfolding get_segment put_segment prune_expired
get-put_segment config key other given put_at now entries u on live full =
    let e = new_entry config given put_at in
    let p = λ (s : FirstSegmentCacheEntry). not (leb s.expires_at now) in
    let before = get-keep p other entries u in
    let after = get-keep p other (Dict.put key e entries) (IsDict-put key e entries u) in
    let stored = get-put key other e entries in
    rw (on, live, full, before, after, stored)
      (elim (Bool-cases (str_eq key other)) [
        | inl same ↦ rw same (unfold new_entry in ground arith)
        | inr differ ↦ rw differ refl
      ])
