-- ===== src/Lru/Cache.antt =====
-- `LRUCache` of app/core/lru_cache.py. A value is `Any | None`, an `Option V`: the code does not tell
-- a stored None from a missing key in what `get` returns. `now` is the call of `time.time()`.
use xzcccc_smart_media.Base.{
  ℕ, ◌+◌, seconds, String, [], ◌∷◌, ◌++◌, Bool, true, false, not, Option, none, some, ltb, leb,
  if◌then◌else◌, keep, length,
}
use xzcccc_smart_media.Dict
use xzcccc_smart_media.Dict.{Dict}

pub record Entry (V : Type 0) : Type 0 where
  pub value : Option V
  pub timestamp : ℕ
  pub ttl : Option ℕ

pub record Stats : Type 0 where
  pub hits : ℕ
  pub misses : ℕ
  pub sets : ℕ
  pub deletes : ℕ
  pub evictions : ℕ
  pub expirations : ℕ

pub record LruCache (V : Type 0) : Type 0 where
  pub maxsize : ℕ
  pub ttl : Option ℕ
  pub enable_stats : Bool
  pub cache : Dict (Entry V)
  pub stats : Stats

-- A call that may raise KeyError, as `popitem` does on an empty dictionary.
pub data Result (A : Type 0) : Type 0 where
  ok : A → Result A
  key_error : Result A

abbrev pub no_stats : Stats
no_stats = record { hits = 0; misses = 0; sets = 0; deletes = 0; evictions = 0; expirations = 0 }

module _ {V : Type 0} where
  -- `__init__`
  unfoldable pub init : ℕ → Option ℕ → Bool → LruCache V
  init maxsize ttl enable_stats = record {
    maxsize = maxsize;
    ttl = ttl;
    enable_stats = enable_stats;
    cache = [];
    stats = no_stats;
  }

  -- `if self.enable_stats:` before a change of the counters
  abbrev pub count : LruCache V → (Stats → Stats) → Stats
  count c f = if c.enable_stats then f c.stats else c.stats

  -- `entry_ttl if entry_ttl is not None else self.ttl`
  abbrev pub effective_ttl : LruCache V → Entry V → Option ℕ
  effective_ttl c e = elim e.ttl [ none ↦ c.ttl | some t ↦ some t ]

  -- `effective_ttl is not None and (time.time() - timestamp) > effective_ttl`
  unfoldable pub expired : ℕ → LruCache V → Entry V → Bool
  expired now c e = elim (effective_ttl c e) [
    | none ↦ false
    | some t ↦ ltb (e.timestamp + seconds t) now
  ]

  -- `OrderedDict.move_to_end`
  abbrev pub move_to_end : String → Entry V → Dict (Entry V) → Dict (Entry V)
  move_to_end key e d = Dict.remove key d ++ (key, e) ∷ []

  unfoldable pub get : ℕ → String → LruCache V → LruCache V × Option V
  unfolding expired
  get now key c = elim (Dict.get key c.cache) [
    | none ↦ (record c { stats = count c (λ s. record s { misses = s.misses + 1 }) }, none)
    | some e ↦
        if expired now c e
        then (
          record c {
            cache = Dict.remove key c.cache;
            stats =
                count c (λ s. record s { expirations = s.expirations + 1; misses = s.misses + 1 });
          },
          none,
        )
        else (
          record c {
            cache = move_to_end key e c.cache;
            stats = count c (λ s. record s { hits = s.hits + 1 });
          },
          e.value,
        )
  ]

  -- The `popitem(last=False)` of `set`, if the cache is full: the entries that stay, and whether
  -- one was evicted.
  unfoldable pub make_room : ℕ → Dict (Entry V) → Result (Dict (Entry V) × Bool)
  make_room maxsize [] = if leb maxsize 0 then key_error else ok ([], false)
  make_room maxsize (oldest ∷ rest) =
      if leb maxsize (length (oldest ∷ rest)) then ok (rest, true) else ok (oldest ∷ rest, false)

  -- The end of `set`: the new entry and the counters.
  abbrev pub store :
      ℕ → String → Option V → Option ℕ → LruCache V → Dict (Entry V) → Bool → LruCache V
  store now key value ttl c kept evicted = record c {
    cache = Dict.put key (record { value = value; timestamp = now; ttl = ttl }) kept;
    stats = count c (λ s. record s {
      evictions = if evicted then s.evictions + 1 else s.evictions;
      sets = s.sets + 1;
    });
  }

  unfoldable pub set : ℕ → String → Option V → Option ℕ → LruCache V → Result (LruCache V)
  unfolding make_room
  set now key value ttl c = elim (make_room c.maxsize (Dict.remove key c.cache)) [
    | ok (kept, evicted) ↦ ok (store now key value ttl c kept evicted)
    | key_error ↦ key_error
  ]

  unfoldable pub delete : String → LruCache V → LruCache V × Bool
  delete key c =
      if Dict.contains key c.cache
      then (
        record c {
          cache = Dict.remove key c.cache;
          stats = count c (λ s. record s { deletes = s.deletes + 1 });
        },
        true,
      )
      else (c, false)

  unfoldable pub clear : LruCache V → LruCache V
  clear c = record c { cache = [] }

  -- The removal of all expired keys; the keys of a dictionary are distinct.
  unfoldable pub cleanup_expired : ℕ → LruCache V → LruCache V × ℕ
  unfolding expired
  cleanup_expired now c =
      let gone = length (keep (λ item. expired now c item.1) c.cache) in
      (
        record c {
          cache = keep (λ item. not (expired now c item.1)) c.cache;
          stats = count c (λ s. record s { expirations = s.expirations + gone });
        },
        gone,
      )

  -- `__len__`
  abbrev pub size : LruCache V → ℕ
  size c = length c.cache

  -- `__contains__`, which drops an expired key and otherwise counts as a use of the key
  unfoldable pub contains : ℕ → String → LruCache V → LruCache V × Bool
  unfolding expired
  contains now key c = elim (Dict.get key c.cache) [
    | none ↦ (c, false)
    | some e ↦
        if expired now c e
        then (
          record c {
            cache = Dict.remove key c.cache;
            stats = count c (λ s. record s { expirations = s.expirations + 1 });
          },
          false,
        )
        else (record c { cache = move_to_end key e c.cache }, true)
  ]
