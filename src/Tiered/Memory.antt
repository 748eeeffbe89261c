-- ===== src/Tiered/Memory.antt =====
-- `MemoryCache` of app/services/cache_service.py, over `LRUCache`, as a level of the cache.
use xzcccc_smart_media.Base.{
  ℕ, ◌≡◌, refl, true, false, if◌then◌else◌, String, str_eq, eq_iff, Option, none, some, arith,
  Bool-cases, Option-cases, inl, inr,
}
use xzcccc_smart_media.Dict
use xzcccc_smart_media.Dict.{get-remove}
use xzcccc_smart_media.Lru.Cache as Lru
use xzcccc_smart_media.Lru.Cache.{LruCache, Result, ok, key_error, Entry}
use xzcccc_smart_media.Lru.Invariant.{IsValid, get-IsValid, set-IsValid, delete-IsValid}
use xzcccc_smart_media.Lru.Lookup.{get-some, get_adds_nothing, get-set, get-set_self, alive}
use xzcccc_smart_media.Tiered.Level.{Level, IsLevel}

alive_now : (ttl own : Option ℕ) (now : ℕ) → alive ttl own now now ≡ true
alive_now none none now = refl
alive_now none (some t) now = ground arith
alive_now (some t) own now = ground arith

module _ {V : Type 0} where
  unfoldable pub memory_set : ℕ → String → V → Option ℕ → LruCache V → Option (LruCache V)
  memory_set now key value ttl c = elim (Lru.set now key (some value) ttl c) [
    | ok c' ↦ some c'
    | key_error ↦ none
  ]

  -- An entry of the key with the value, expired or not.
  abbrev pub MemoryHolds : String → V → LruCache V → Type 0
  MemoryHolds k v c = (e : Entry V) × (Dict.get k c.cache ≡ some e) × (e.value ≡ some v)

  pub memory_set_lem :
      (now : ℕ) (k : String) (w : V) (ttl : Option ℕ) (c : LruCache V)
      → IsValid c
      → (c' : LruCache V) × (memory_set now k w ttl c ≡ some c')
        × IsValid c'
        × ((j : String) (v : V)
            → MemoryHolds j v c'
            → if str_eq k j then v ≡ w else MemoryHolds j v c)
        × ((Lru.get now k c').1 ≡ some w)
  unfolding memory_set
  memory_set_lem now k w ttl c good =
      let (c', e, good') = set-IsValid now k (some w) ttl c good in
      (
        c',
        rw (e, memory_set) refl,
        good',
        λ j v (entry, found, holds). elim (Bool-cases (str_eq k j)) [
          | inl same ↦ rw same (ground (arith, get-set now k j (some w) ttl c c' good e))
          | inr other ↦
              rw other (entry, ground (arith, get-set now k j (some w) ttl c c' good e), holds)
        ],
        rw (get-set_self now now k (some w) ttl c c' good e, alive_now ttl c.ttl now) refl,
      )

  pub memory_delete_sound :
      (k j : String) (c : LruCache V) (v : V)
      → MemoryHolds j v (Lru.delete k c).0
      → (str_eq k j ≡ false) × MemoryHolds j v c
  unfolding Lru.delete
  memory_delete_sound k j c v (e, found, holds) = elim (Option-cases (Dict.get k c.cache)) [
    | inl miss ↦
        let there : Dict.get j c.cache ≡ some e = rw miss at found in
        (ground (arith, eq_iff k j), (e, there, holds))
    | inr (old, there) ↦
        let kept : Dict.get j (Dict.remove k c.cache) ≡ some e = rw there at found in
        let both : (str_eq k j ≡ false) × (Dict.get j c.cache ≡ some e) =
          ground (arith, get-remove k j c.cache) in
        (both.0, (e, both.1, holds))
  ]

  pub memory_clear_good : (c : LruCache V) → IsValid c → IsValid (Lru.clear c)
  unfolding Lru.clear
  memory_clear_good c good = record {
    positive = good.positive;
    distinct = tt;
    bounded = omega arith;
  }

  pub memory_cleared : (j : String) (c : LruCache V) (v : V) → ¬ MemoryHolds j v (Lru.clear c)
  unfolding Lru.clear Dict.get
  memory_cleared j c v (e, found, holds) = ground arith

  -- `MemoryCache.clear` returns None, which `TieredCache.clear` takes for a failure.
  abbrev pub memory_level : Level (LruCache V) V
  memory_level = record {
    get = Lru.get;
    set = memory_set;
    delete = Lru.delete;
    clear = λ c. (Lru.clear c, false);
  }

  -- A memory cache that has room for an entry keeps the promise of a level.
  unfoldable pub memory-IsLevel : IsLevel (LruCache V) V memory_level
  memory-IsLevel = record {
    IsGood = IsValid;
    Holds = MemoryHolds;
    get_good = get-IsValid;
    get_sound = λ now k c v e. get-some now k c v e;
    get_keeps = λ now k j c v (e, found, holds). (e, get_adds_nothing now k j c e found, holds);
    set_lem = memory_set_lem;
    delete_good = delete-IsValid;
    delete_sound = λ k j c v good. memory_delete_sound k j c v;
    clear_good = memory_clear_good;
    clear_sound = memory_cleared;
  }
