-- ===== src/Lru/MultiLevel.antt =====
-- `CachedFunction` and `MultiLevelLRUCache` of app/core/lru_cache.py. One call reads the clock more
-- than once in the code; it is given one time here.
use xzcccc_smart_media.Base.{
  ℕ, ◌+◌, ◌≡◌, String, Option, none, some, if◌then◌else◌, arith, Option-cases, inl, inr, eq_iff,
  is_some, ◌∙◌, ◌||◌, ap, sym,
}
use xzcccc_smart_media.Dict
use xzcccc_smart_media.Dict.{Dict}
use xzcccc_smart_media.Lru.Cache.{Entry, LruCache, Result, ok, key_error, get, set}
use xzcccc_smart_media.Lru.Invariant.{IsValid, get-IsValid, set-IsValid}
use xzcccc_smart_media.Lru.Lookup.{get-set, alive, get-set_self, get-some, get_adds_nothing}

infixl 5 ◌>>=◌
abbrev pub ◌>>=◌ : {A B : Type 0} → Result A → (A → Result B) → Result B
ok a >>= f = f a
key_error >>= f = key_error

module _ {V : Type 0} where
  -- The wrapper of `CachedFunction` at one call: `cache_key` is the key of its arguments, and
  -- `computed` what the function returns for them.
  unfoldable pub call : ℕ → String → Option V → LruCache V → Result (LruCache V × Option V)
  call now cache_key computed c =
      let (c', result) = get now cache_key c in
      let filled = (do c'' ← set now cache_key computed none c'; ok (c'', computed)) in
      if is_some result then ok (c', result) else filled

  -- Every value in the cache is the one that the function has at its key.
  abbrev pub Remembers : (String → Option V) → LruCache V → Type 0
  Remembers f c = (k : String) (e : Entry V) → Dict.get k c.cache ≡ some e → e.value ≡ f k

  -- A memoised function of its key returns what the function returns, whatever has expired or was
  -- evicted; no call raises, and the cache remembers only values of the function.
  pub call-Remembers :
      (f : String → Option V) (now : ℕ) (k : String) (c : LruCache V)
      → IsValid c
      → Remembers f c
      → (c' : LruCache V) × (call now k (f k) c ≡ ok (c', f k)) × IsValid c' × Remembers f c'
  unfolding call
  call-Remembers f now k c v r =
      let c1 = (get now k c).0 in
      let v1 = get-IsValid now k c v in
      let r1 : Remembers f c1 = λ j e found. r j e (get_adds_nothing now k j c e found) in
      elim (Option-cases (get now k c).1) [
        | inl miss ↦
            let (c2, done, v2) = set-IsValid now k (f k) none c1 v1 in
            (
              c2,
              rw (miss, call) (rw done),
              v2,
              λ j e found.
                  ground (arith, get-set now k j (f k) none c1 c2 v1 done, r1 j e, eq_iff k j),
            )
        | inr (x, hit) ↦
            let (e, found, is) = get-some now k c x hit in
            (c1, rw (hit, call) (ap (λ y. ok (c1, y)) (sym is ∙ r k e found)), v1, r1)
      ]

-- `MultiLevelLRUCache`
pub record MultiLevel (V : Type 0) : Type 0 where
  pub l1_cache : LruCache V
  pub l2_cache : LruCache V
  pub l1_hits : ℕ
  pub l2_hits : ℕ
  pub misses : ℕ

module _ {V : Type 0} where
  -- The part of `get` behind a miss in the first level.
  unfoldable pub get_l2 : ℕ → String → MultiLevel V → Result (MultiLevel V × Option V)
  get_l2 now key m =
      let (l2', value) = get now key m.l2_cache in
      let promoted = (do
        l1' ← set now key value none m.l1_cache
        ok (record m { l1_cache = l1'; l2_cache = l2'; l2_hits = m.l2_hits + 1 }, value)) in
      if is_some value
      then promoted
      else ok (record m { l2_cache = l2'; misses = m.misses + 1 }, none)

  unfoldable pub get_multi : ℕ → String → MultiLevel V → Result (MultiLevel V × Option V)
  unfolding get_l2
  get_multi now key m =
      let (l1', value) = get now key m.l1_cache in
      if is_some value
      then ok (record m { l1_cache = l1'; l1_hits = m.l1_hits + 1 }, value)
      else get_l2 now key (record m { l1_cache = l1' })

  unfoldable pub set_multi : ℕ → String → Option V → MultiLevel V → Result (MultiLevel V)
  set_multi now key value m = do
    l1' ← set now key value none m.l1_cache
    l2' ← set now key value none m.l2_cache
    ok (record m { l1_cache = l1'; l2_cache = l2' })

  pub record IsValidMulti (m : MultiLevel V) : Type 0 where
    pub l1 : IsValid m.l1_cache
    pub l2 : IsValid m.l2_cache

  multi_stored :
      (now : ℕ) (k : String) (value : Option V) (m m' : MultiLevel V) (l1 l2 : LruCache V)
      → set_multi now k value m ≡ ok m'
      → set now k value none m.l1_cache ≡ ok l1
      → set now k value none m.l2_cache ≡ ok l2
      → m' ≡ record m { l1_cache = l1; l2_cache = l2 }
  unfolding set_multi
  multi_stored now k value m m' l1 l2 h done1 done2 = ground arith

  abbrev pub lookups : MultiLevel V → ℕ
  lookups m = m.l1_hits + m.l2_hits + m.misses

  -- A read of valid levels raises nothing; it returns what the first level has, or else what the
  -- second one has, and counts once.
  get_multi_lem :
      (now : ℕ) (k : String) (m : MultiLevel V)
      → IsValidMulti m
      → (m' : MultiLevel V) × (get_multi now k m
          ≡ ok (
            m',
            (if is_some (get now k m.l1_cache).1
                then (get now k m.l1_cache).1
                else (get now k m.l2_cache).1),
          ))
        × IsValidMulti m'
        × (lookups m' ≡ lookups m + 1)
  unfolding get_multi
  get_multi_lem now k m v =
      let l1 = (get now k m.l1_cache).0 in
      let l2 = (get now k m.l2_cache).0 in
      let v1 = get-IsValid now k m.l1_cache v.l1 in
      let v2 = get-IsValid now k m.l2_cache v.l2 in
      elim (Option-cases (get now k m.l1_cache).1) [
        | inr (x, hit) ↦ (
          record m { l1_cache = l1; l1_hits = m.l1_hits + 1 },
          rw (hit, get_multi),
          record { l1 = v1; l2 = v.l2 },
          omega arith,
        )
        | inl miss ↦ elim (Option-cases (get now k m.l2_cache).1) [
          | inl none_left ↦ (
            record m { l1_cache = l1; l2_cache = l2; misses = m.misses + 1 },
            rw (miss, get_multi) (rw none_left),
            record { l1 = v1; l2 = v2 },
            omega arith,
          )
          | inr (y, found) ↦
              let (l1', done, v1') = set-IsValid now k (some y) none l1 v1 in
              (
                record m { l1_cache = l1'; l2_cache = l2; l2_hits = m.l2_hits + 1 },
                rw (miss, get_multi) (rw found (rw done)),
                record { l1 = v1'; l2 = v2 },
                omega arith,
              )
        ]
      ]

  -- A read after a write returns the value while either level may still hold it, and None from then
  -- on; the read raises nothing, keeps both levels valid and is counted once: as a hit of a level or
  -- as a miss.
  pub get_multi-set_multi :
      (now later : ℕ) (k : String) (x : V) (m m' : MultiLevel V)
      → IsValidMulti m
      → set_multi now k (some x) m ≡ ok m'
      → (m'' : MultiLevel V) × (get_multi later k m'
          ≡ ok (
            m'',
            (if alive none m.l1_cache.ttl now later || alive none m.l2_cache.ttl now later
                then some x
                else none),
          ))
        × IsValidMulti m''
        × (lookups m'' ≡ lookups m + 1)
  get_multi-set_multi now later k x m m' v h =
      let (l1, done1, v1) = set-IsValid now k (some x) none m.l1_cache v.l1 in
      let (l2, done2, v2) = set-IsValid now k (some x) none m.l2_cache v.l2 in
      let stored : MultiLevel V = record m { l1_cache = l1; l2_cache = l2 } in
      let same : m' ≡ stored = multi_stored now k (some x) m m' l1 l2 h done1 done2 in
      let first = get-set_self now later k (some x) none m.l1_cache l1 v.l1 done1 in
      let second = get-set_self now later k (some x) none m.l2_cache l2 v.l2 done2 in
      let (m'', read, v'', count) = get_multi_lem later k stored (record { l1 = v1; l2 = v2 }) in
      let value : (if is_some (get later k l1).1 then (get later k l1).1 else (get later k l2).1)
          ≡ (if alive none m.l1_cache.ttl now later || alive none m.l2_cache.ttl now later
              then some x
              else none) =
        ground arith in
      (m'', rw same (read ∙ ap (λ y. ok (m'', y)) value), v'', count)
