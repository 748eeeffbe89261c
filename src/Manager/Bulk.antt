-- ===== src/Manager/Bulk.antt =====
-- The bulk operations of `CacheManager` and `LegacyCacheAdapter` of app/core/cache_manager.py.
use xzcccc_smart_media.Base.{
  ℕ, ◌+◌, ◌≡◌, refl, List, [], ◌∷◌, Bool, true, if◌then◌else◌, String, str_eq, eq_iff, Option, none,
  some, any, arith, Bool-cases, inl, inr, ◌∙◌, ◌⊎◌,
}
use mathlib.Core.Path.{subst}
use xzcccc_smart_media.Dict
use xzcccc_smart_media.Dict.{Dict, get-remove}
use xzcccc_smart_media.Lru.Cache as Lru
use xzcccc_smart_media.Lru.Cache.{Result, ok, key_error}
use xzcccc_smart_media.Lru.Lookup.{get_lem}
use xzcccc_smart_media.Manager.Space.{
  NamespacedCache, Ttl, never, given, get_versioned_key, space_get, space_delete,
}
use xzcccc_smart_media.Manager.Namespaces.{
  CacheNamespace, link, general, tmdb, quark_api, proxy, is_same, CacheManager, update, manager_get,
  manager_set, manager_delete, clear_namespace, get_or_set,
}

module _ {V : Type 0} where
  -- The loop of `get_many` with the results so far.
  unfoldable pub get_many_into :
      ℕ → CacheNamespace → List String → Dict V → CacheManager V → CacheManager V × Dict V
  get_many_into now n [] results m = (m, results)
  get_many_into now n (key ∷ keys) results m =
      let (m', value) = manager_get now n key m in
      get_many_into now n keys (elim value [ some v ↦ Dict.put key v results | none ↦ results ]) m'

  unfoldable pub get_many :
      ℕ → CacheNamespace → List String → CacheManager V → CacheManager V × Dict V
  get_many now n keys m = get_many_into now n keys [] m

  -- The number of the items that are set, unless the cache raises.
  unfoldable pub set_many :
      ℕ → CacheNamespace → Dict (Option V) → Ttl → CacheManager V → Result (CacheManager V × ℕ)
  set_many now n [] ttl m = ok (m, 0)
  set_many now n ((key, value) ∷ items) ttl m = elim (manager_set now n key value ttl m) [
    | key_error ↦ key_error
    | ok m' ↦ elim (set_many now n items ttl m') [
      | ok (m'', done) ↦ ok (m'', done + 1)
      | key_error ↦ key_error
    ]
  ]

  unfoldable pub delete_many : CacheNamespace → List String → CacheManager V → CacheManager V × ℕ
  delete_many n [] m = (m, 0)
  delete_many n (key ∷ keys) m =
      let (m', found) = manager_delete n key m in
      let (m'', deleted) = delete_many n keys m' in (m'', if found then deleted + 1 else deleted)

  -- No entry of the key in its namespace.
  abbrev IsGone : CacheNamespace → String → CacheManager V → Type 0
  IsGone n k m = Dict.get (get_versioned_key (m.spaces n) k) (m.spaces n).lru.cache ≡ none

  manager_delete-spaces :
      (n : CacheNamespace) (key : String) (m : CacheManager V)
      → (manager_delete n key m).0.spaces ≡ update n (space_delete key (m.spaces n)).0 m.spaces
  unfolding manager_delete
  manager_delete-spaces n key m = elim (Bool-cases (space_delete key (m.spaces n)).1) [
    | inl found ↦ simp found refl
    | inr missing ↦ simp missing refl
  ]

  here :
      (n : CacheNamespace) (key : String) (m : CacheManager V)
      → (manager_delete n key m).0.spaces n ≡ (space_delete key (m.spaces n)).0
  unfolding update
  here n key m =
      let self : is_same n n ≡ true = ground arith in rw (manager_delete-spaces n key m, self) refl

  deleted_gone :
      (k j : String) (c : NamespacedCache V)
      → (str_eq k j ≡ true) ⊎ (Dict.get (get_versioned_key c j) c.lru.cache ≡ none)
      → Dict.get (get_versioned_key (space_delete k c).0 j) (space_delete k c).0.lru.cache ≡ none
  unfolding space_delete Lru.delete
  deleted_gone k j c h =
      let key = get_versioned_key c k in
      elim (Bool-cases (Dict.contains key c.lru.cache)) [
        | inr absent ↦ simp absent (elim h [
          | inl same ↦
              let miss : Dict.get key c.lru.cache ≡ none = ground arith in
              subst (λ x. Dict.get (get_versioned_key c x) c.lru.cache ≡ none) ((eq_iff k j).0 same)
                miss
          | inr gone ↦ gone
        ])
        | inl there ↦ simp there (elim h [
          | inl same ↦
              let miss : Dict.get key (Dict.remove key c.lru.cache) ≡ none =
                ground (arith, get-remove key key c.lru.cache, eq_iff key key) in
              subst (λ x. Dict.get (get_versioned_key c x) (Dict.remove key c.lru.cache) ≡ none)
                ((eq_iff k j).0 same) miss
          | inr gone ↦ ground (arith, get-remove key (get_versioned_key c j) c.lru.cache)
        ])
      ]

  IsGone-manager_delete :
      (n : CacheNamespace) (k j : String) (m : CacheManager V)
      → (str_eq k j ≡ true) ⊎ IsGone n j m
      → IsGone n j (manager_delete n k m).0
  IsGone-manager_delete n k j m h = rw (here n k m) (deleted_gone k j (m.spaces n) h)

  IsGone-delete_many :
      (n : CacheNamespace) (j : String) (keys : List String) (m : CacheManager V)
      → (any (λ k. str_eq k j) keys ≡ true) ⊎ IsGone n j m
      → IsGone n j (delete_many n keys m).0
  unfolding delete_many any
  IsGone-delete_many n j [] m (inl h) = absurd (ground arith)
  IsGone-delete_many n j [] m (inr h) = h
  IsGone-delete_many n j (k ∷ keys) m (inr h) =
      IsGone-delete_many n j keys (manager_delete n k m).0
        (inr (IsGone-manager_delete n k j m (inr h)))
  IsGone-delete_many n j (k ∷ keys) m (inl h) = elim (Bool-cases (str_eq k j)) [
    | inl same ↦
        IsGone-delete_many n j keys (manager_delete n k m).0
          (inr (IsGone-manager_delete n k j m (inl same)))
    | inr other ↦ IsGone-delete_many n j keys (manager_delete n k m).0 (inl (rw other at h))
  ]

  -- After a deletion of many keys, a look-up of any of them finds nothing, at any time.
  pub manager_get-delete_many :
      (now : ℕ) (n : CacheNamespace) (j : String) (keys : List String) (m : CacheManager V)
      → any (λ k. str_eq k j) keys ≡ true
      → (manager_get now n j (delete_many n keys m).0).1 ≡ none
  unfolding manager_get space_get
  manager_get-delete_many now n j keys m h =
      let c = (delete_many n keys m).0.spaces n in
      let gone = IsGone-delete_many n j keys m (inl h) in
      let read = (get_lem now (get_versioned_key c j) (get_versioned_key c j) c.lru).0 in
      read ∙ rw gone refl

-- `CACHE_TYPE_MAPPING`
unfoldable pub namespace_of : String → CacheNamespace
namespace_of cache_type =
    if str_eq cache_type "link"
    then link
    else if str_eq cache_type "general"
    then general
    else if str_eq cache_type "tmdb"
    then tmdb
    else if str_eq cache_type "quark_api"
    then quark_api
    else if str_eq cache_type "proxy"
    then proxy
    else general

-- The adapter hands its own None on, which the manager takes for a life without end.
abbrev pub adapter_ttl : Option ℕ → Ttl
adapter_ttl none = never
adapter_ttl (some ttl) = given ttl

module _ {V : Type 0} (cache_type : String) where
  unfoldable pub adapter_get : ℕ → String → CacheManager V → CacheManager V × Option V
  adapter_get now key m = manager_get now (namespace_of cache_type) key m

  unfoldable pub adapter_set :
      ℕ → String → Option V → Option ℕ → CacheManager V → Result (CacheManager V)
  adapter_set now key value ttl m =
      manager_set now (namespace_of cache_type) key value (adapter_ttl ttl) m

  unfoldable pub adapter_delete : String → CacheManager V → CacheManager V × Bool
  adapter_delete key m = manager_delete (namespace_of cache_type) key m

  unfoldable pub adapter_clear : CacheManager V → CacheManager V
  adapter_clear m = clear_namespace (namespace_of cache_type) m

  unfoldable pub adapter_get_or_set :
      ℕ → String → Option V → Option ℕ → CacheManager V → Result (CacheManager V × Option V)
  adapter_get_or_set now key made ttl m =
      get_or_set now (namespace_of cache_type) key made (adapter_ttl ttl) m
