-- ===== src/LinkCache/Links.antt =====
-- `CacheEntry` and `LinkCacheLegacy` of app/services/link_cache.py. The Range header is no part of a
-- key, so it is no argument here; `now` is the call of `time.time()`.
use Prim.Native.String.{◌++◌ as ◌⧺◌, compare}
use Prim.Native.Nat.{Ordering}
use xzcccc_smart_media.Base.{
  ℕ, ◌+◌, ◌/◌, max, [], ◌∷◌, List, map, Bool, true, false, not, ltb, leb, if◌then◌else◌, String,
  Option, none, some, keep, length, take, or_default, seconds,
}
use xzcccc_smart_media.Dict
use xzcccc_smart_media.Dict.{Dict}
use xzcccc_smart_media.Text.Split.{join_with}

pub record LinkEntry (V : Type 0) : Type 0 where
  pub entry_value : V
  pub headers : Dict String
  pub entry_ttl : ℕ
  pub entry_created_at : ℕ
  pub entry_expires_at : ℕ
  pub entry_access_count : ℕ
  pub last_accessed_at : ℕ

pub record LinkCache (V : Type 0) : Type 0 where
  pub default_ttl : ℕ
  pub max_size : ℕ
  pub links : Dict (LinkEntry V)

-- The place of an item in a sorted list, behind those that may stand before it: `sorted` is stable.
unfoldable pub insert_sorted : {A : Type 0} → (A → A → Bool) → A → List A → List A
insert_sorted less x [] = x ∷ []
insert_sorted less x (y ∷ ys) =
    let rest = insert_sorted less x ys in if less y x then y ∷ rest else x ∷ y ∷ ys

-- `sorted`
unfoldable pub sort_by : {A : Type 0} → (A → A → Bool) → List A → List A
sort_by less [] = []
sort_by less (x ∷ xs) = insert_sorted less x (sort_by less xs)

abbrev pub name_before : String × Option String → String × Option String → Bool
name_before a b = elim (compare a.0 b.0) [ Ordering.lt ↦ true | _ ↦ false ]

-- The parts `k=v` of the parameters that are not None.
unfoldable pub stable_parts : List (String × Option String) → List String
stable_parts [] = []
stable_parts ((k, none) ∷ rest) = stable_parts rest
stable_parts ((k, some v) ∷ rest) = (k ⧺ "=" ⧺ v) ∷ stable_parts rest

unfoldable pub generate_cache_key : String → List (String × Option String) → String
generate_cache_key file_id kwargs =
    join_with ":" (file_id ∷ stable_parts (sort_by name_before kwargs))

module _ {V : Type 0} where
  abbrev pub new_link : ℕ → V → Dict String → ℕ → LinkEntry V
  new_link now value headers ttl = record {
    entry_value = value;
    headers = headers;
    entry_ttl = ttl;
    entry_created_at = now;
    entry_expires_at = now + seconds ttl;
    entry_access_count = 0;
    last_accessed_at = now;
  }

  abbrev pub link_expired : ℕ → LinkEntry V → Bool
  link_expired now e = ltb e.entry_expires_at now

  abbrev pub touch : ℕ → LinkEntry V → LinkEntry V
  touch now e = record e { entry_access_count = e.entry_access_count + 1; last_accessed_at = now }

  unfoldable pub get_link : ℕ → String → LinkCache V → LinkCache V × Option (LinkEntry V)
  get_link now key c = elim (Dict.get key c.links) [
    | none ↦ (c, none)
    | some e ↦
        if link_expired now e
        then (record c { links = Dict.remove key c.links }, none)
        else (record c { links = Dict.put key (touch now e) c.links }, some (touch now e))
  ]

  unfoldable pub cleanup_links : ℕ → LinkCache V → LinkCache V
  cleanup_links now c = record c { links = keep (λ item. not (link_expired now item.1)) c.links }

  abbrev pub used_before : String × LinkEntry V → String × LinkEntry V → Bool
  used_before a b = ltb a.1.last_accessed_at b.1.last_accessed_at

  -- Items inserted from the right keep their order where neither was used before the other.
  abbrev pub by_last_access : Dict (LinkEntry V) → Dict (LinkEntry V)
  by_last_access links = sort_by used_before links

  -- `del self._cache[key]` for each key
  unfoldable pub remove_keys : List String → Dict (LinkEntry V) → Dict (LinkEntry V)
  remove_keys [] links = links
  remove_keys (k ∷ ks) links = remove_keys ks (Dict.remove k links)

  unfoldable pub evict_oldest : LinkCache V → LinkCache V
  evict_oldest c =
      let evict_count = max 1 (length c.links / 10) in
      record c {
        links =
            remove_keys (map (λ item. item.0) (take evict_count (by_last_access c.links))) c.links;
      }

  -- What `set` does first in a cache that is full.
  unfoldable pub room_for_link : ℕ → LinkCache V → LinkCache V
  room_for_link now c =
      if leb c.max_size (length c.links)
      then (let cleaned = cleanup_links now c in
          if leb cleaned.max_size (length cleaned.links) then evict_oldest cleaned else cleaned)
      else c

  -- `ttl or self.default_ttl`
  abbrev pub link_ttl : LinkCache V → Option ℕ → ℕ
  link_ttl c none = c.default_ttl
  link_ttl c (some ttl) = or_default ttl c.default_ttl

  unfoldable pub set_link : ℕ → String → V → Dict String → Option ℕ → LinkCache V → LinkCache V
  set_link now key value headers ttl c =
      let roomy = room_for_link now c in
      record roomy {
        links = Dict.put key (new_link now value headers (link_ttl c ttl)) roomy.links;
      }

  unfoldable pub delete_link : String → LinkCache V → LinkCache V × Bool
  delete_link key c =
      if Dict.contains key c.links
      then (record c { links = Dict.remove key c.links }, true)
      else (c, false)

  -- A round of `_cleanup_loop`
  unfoldable pub cleanup_round : ℕ → LinkCache V → LinkCache V
  cleanup_round now c =
      let cleaned = cleanup_links now c in
      if ltb cleaned.max_size (length cleaned.links) then evict_oldest cleaned else cleaned

  unfoldable pub clear_links : LinkCache V → LinkCache V
  clear_links c = record c { links = [] }
