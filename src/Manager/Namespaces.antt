-- ===== src/Manager/Namespaces.antt =====
-- `CacheManager` of app/core/cache_manager.py: ten namespaces, each a cache of its own, and what their
-- invalidation takes along.
use xzcccc_smart_media.Base.{
  ℕ, ◌+◌, ◌-◌, String, List, [], ◌∷◌, ◌++◌, Bool, ◌&&◌, Option, none, some, ltb, if◌then◌else◌,
  length, drop, is_some, str_eq, ◌==◌,
}
use xzcccc_smart_media.Lru.Cache.{Result, ok, key_error}
use xzcccc_smart_media.Manager.Space.{
  NamespacedCache, Ttl, new_space, increment_version, space_get, space_set, space_delete,
  space_clear,
}

pub data CacheNamespace : Type 0 where
  link : CacheNamespace
  file_size : CacheNamespace
  tmdb : CacheNamespace
  quark_api : CacheNamespace
  strm : CacheNamespace
  emby : CacheNamespace
  proxy : CacheNamespace
  rename : CacheNamespace
  scrape : CacheNamespace
  general : CacheNamespace

abbrev pub default_namespace_ttls : CacheNamespace → ℕ
default_namespace_ttls link = 600
default_namespace_ttls file_size = 3600
default_namespace_ttls tmdb = 86400
default_namespace_ttls quark_api = 300
default_namespace_ttls strm = 3600
default_namespace_ttls emby = 600
default_namespace_ttls proxy = 600
default_namespace_ttls rename = 1800
default_namespace_ttls scrape = 3600
default_namespace_ttls general = 600

abbrev pub default_namespace_sizes : CacheNamespace → ℕ
default_namespace_sizes link = 2000
default_namespace_sizes file_size = 1000
default_namespace_sizes tmdb = 500
default_namespace_sizes quark_api = 1000
default_namespace_sizes strm = 500
default_namespace_sizes emby = 500
default_namespace_sizes proxy = 1000
default_namespace_sizes rename = 500
default_namespace_sizes scrape = 500
default_namespace_sizes general = 1000

-- `NAMESPACE_DEPENDENCIES.get(namespace, set())`. A set is listed in one order here; the code's order
-- is that of the set, and only the order of the names in a result depends on it.
abbrev pub namespace_dependencies : CacheNamespace → List CacheNamespace
namespace_dependencies quark_api = link ∷ file_size ∷ proxy ∷ []
namespace_dependencies link = proxy ∷ []
namespace_dependencies tmdb = rename ∷ scrape ∷ []
namespace_dependencies emby = strm ∷ []
namespace_dependencies _ = []

-- The place of a namespace in the enumeration, which tells the namespaces apart.
abbrev pub place : CacheNamespace → ℕ
place link = 0
place file_size = 1
place tmdb = 2
place quark_api = 3
place strm = 4
place emby = 5
place proxy = 6
place rename = 7
place scrape = 8
place general = 9

abbrev pub is_same : CacheNamespace → CacheNamespace → Bool
is_same a b = place a == place b

-- The counters `_global_stats`.
pub record GlobalStats : Type 0 where
  pub total_hits : ℕ
  pub total_misses : ℕ
  pub total_sets : ℕ
  pub total_deletes : ℕ
  pub total_invalidations : ℕ

pub record InvalidationEvent : Type 0 where
  pub timestamp : ℕ
  pub namespace : CacheNamespace
  pub event_key : Option String
  pub cascade : Bool
  pub invalidated_keys : List String
  pub cascaded_namespaces : List CacheNamespace
  pub new_version : Option ℕ

pub record CacheManager (V : Type 0) : Type 0 where
  pub enable_versioning : Bool
  pub enable_cross_namespace : Bool
  pub spaces : CacheNamespace → NamespacedCache V
  pub global_stats : GlobalStats
  pub invalidation_log : List InvalidationEvent

abbrev pub max_log_size : ℕ
max_log_size = 100

-- `_add_invalidation_log`
unfoldable pub add_invalidation_log :
    InvalidationEvent → List InvalidationEvent → List InvalidationEvent
add_invalidation_log event log =
    let log' = log ++ event ∷ [] in
    if ltb max_log_size (length log') then drop (length log' - max_log_size) log' else log'

module _ {V : Type 0} where
  -- `__init__` with the default times to live and sizes.
  unfoldable pub new_manager : Bool → Bool → Bool → ℕ → CacheManager V
  new_manager stats versioning cross now = record {
    enable_versioning = versioning;
    enable_cross_namespace = cross;
    spaces =
        λ n. new_space (default_namespace_sizes n) (default_namespace_ttls n) stats versioning now;
    global_stats = record {
      total_hits = 0;
      total_misses = 0;
      total_sets = 0;
      total_deletes = 0;
      total_invalidations = 0;
    };
    invalidation_log = [];
  }

  -- The namespaces with a new state of one of them.
  unfoldable pub update :
      CacheNamespace
      → NamespacedCache V
      → (CacheNamespace → NamespacedCache V)
      → CacheNamespace
      → NamespacedCache V
  update n c spaces m = if is_same n m then c else spaces m

  abbrev pub count : CacheManager V → (GlobalStats → GlobalStats) → CacheManager V
  count m f = record m { global_stats = f m.global_stats }

  unfoldable pub manager_get :
      ℕ → CacheNamespace → String → CacheManager V → CacheManager V × Option V
  manager_get now n key m =
      let (c, value) = space_get now key (m.spaces n) in
      let m' = record m { spaces = update n c m.spaces } in
      (
        count m' λ s.
            if is_some value
            then record s { total_hits = s.total_hits + 1 }
            else record s { total_misses = s.total_misses + 1 },
        value,
      )

  unfoldable pub manager_set :
      ℕ → CacheNamespace → String → Option V → Ttl → CacheManager V → Result (CacheManager V)
  manager_set now n key value ttl m = elim (space_set now key value ttl (m.spaces n)) [
    | ok c ↦ ok (
        count (record m { spaces = update n c m.spaces })
          λ s. record s { total_sets = s.total_sets + 1 })
    | key_error ↦ key_error
  ]

  unfoldable pub manager_delete : CacheNamespace → String → CacheManager V → CacheManager V × Bool
  manager_delete n key m =
      let (c, found) = space_delete key (m.spaces n) in
      let m' = record m { spaces = update n c m.spaces } in
      (
        if found then count m' (λ s. record s { total_deletes = s.total_deletes + 1 }) else m',
        found,
      )

  unfoldable pub clear_namespace : CacheNamespace → CacheManager V → CacheManager V
  clear_namespace n m = record m { spaces = update n (space_clear (m.spaces n)) m.spaces }

  unfoldable pub clear_all : CacheManager V → CacheManager V
  clear_all m = record m { spaces = λ n. space_clear (m.spaces n) }

  -- A new version of a namespace, or an empty one where there are no versions.
  abbrev pub drop_space : ℕ → Bool → NamespacedCache V → NamespacedCache V
  drop_space now versioning c = if versioning then increment_version now c else space_clear c

  -- The loop over the dependent namespaces.
  unfoldable pub cascade_over : ℕ → List CacheNamespace → CacheManager V → CacheManager V
  cascade_over now [] m = m
  cascade_over now (n ∷ rest) m = cascade_over now rest (
      count
        (record m { spaces = update n (drop_space now m.enable_versioning (m.spaces n)) m.spaces })
        λ s. record s { total_invalidations = s.total_invalidations + 1 })

  -- The first half of `invalidate_related`: the namespace itself. The answer is the keys that are
  -- invalidated, and the new version. An empty key counts as none.
  unfoldable pub invalidate_primary :
      ℕ → CacheNamespace → Option String → CacheManager V → CacheManager V × List String × Option ℕ
  invalidate_primary now n key m =
      let invalidated =
        λ (s : GlobalStats). record s { total_invalidations = s.total_invalidations + 1 } in
      let whole : CacheManager V × List String × Option ℕ =
        let c = drop_space now m.enable_versioning (m.spaces n) in
        (
          count (record m { spaces = update n c m.spaces }) invalidated,
          [],
          if m.enable_versioning then some c.version else none,
        ) in
      elim key [
        | none ↦ whole
        | some k ↦
            let (c, found) = space_delete k (m.spaces n) in
            let m' = record m { spaces = update n c m.spaces } in
            if str_eq k ""
            then whole
            else if found
            then (count m' invalidated, k ∷ [], none)
            else (m', [], none)
      ]

  unfoldable pub invalidate_related :
      ℕ
      → CacheNamespace
      → Option String
      → Bool
      → CacheManager V
      → CacheManager V × InvalidationEvent
  invalidate_related now n key cascade m =
      let (m1, keys, version) = invalidate_primary now n key m in
      let dependent =
        if cascade && m.enable_cross_namespace then namespace_dependencies n else [] in
      let m2 = cascade_over now dependent m1 in
      let event : InvalidationEvent = record {
        timestamp = now;
        namespace = n;
        event_key = key;
        cascade = cascade;
        invalidated_keys = keys;
        cascaded_namespaces = dependent;
        new_version = version;
      } in
      (record m2 { invalidation_log = add_invalidation_log event m2.invalidation_log }, event)

  -- The loop of `increment_namespace_version`, which makes new versions with or without versioning.
  unfoldable pub increment_over : ℕ → List CacheNamespace → CacheManager V → CacheManager V
  increment_over now [] m = m
  increment_over now (n ∷ rest) m =
      increment_over now rest
        (record m { spaces = update n (increment_version now (m.spaces n)) m.spaces })

  -- The manager, the new version and the namespaces that went along.
  unfoldable pub increment_namespace_version :
      ℕ → CacheNamespace → Bool → CacheManager V → CacheManager V × ℕ × List CacheNamespace
  increment_namespace_version now n cascade m =
      let c = increment_version now (m.spaces n) in
      let dependent =
        if cascade && m.enable_cross_namespace then namespace_dependencies n else [] in
      let m' = increment_over now dependent (record m { spaces = update n c m.spaces }) in
      (
        count m'
            λ s. record s { total_invalidations = s.total_invalidations + (1 + length dependent) },
        c.version,
        dependent,
      )

  -- `get_or_set`, where the call of the factory gives `made`.
  unfoldable pub get_or_set :
      ℕ
      → CacheNamespace
      → String
      → Option V
      → Ttl
      → CacheManager V
      → Result (CacheManager V × Option V)
  get_or_set now n key made ttl m =
      let (m', value) = manager_get now n key m in
      let filled : Result (CacheManager V × Option V) = elim (manager_set now n key made ttl m') [
        | ok m'' ↦ ok (m'', made)
        | key_error ↦ key_error
      ] in
      if is_some value then ok (m', value) else filled
