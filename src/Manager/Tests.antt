-- ===== src/Manager/Tests.antt =====
-- The cache manager on concrete input.
use xzcccc_smart_media.Base.{ℕ, ◌≡◌, refl, List, [], ◌∷◌, true, ◌<◌, none, some, arith, any}
use xzcccc_smart_media.Manager.Space.{use_default, new_space}
use xzcccc_smart_media.Manager.Reach.{
  IsSound, Op, set_op, get_op, increment_op, perform_all, perform_all-IsSound, new_space-IsSound,
}
use xzcccc_smart_media.Manager.Namespaces.{
  CacheNamespace, link, file_size, tmdb, quark_api, strm, emby, proxy, rename, scrape, general,
  default_namespace_sizes, default_namespace_ttls, CacheManager, new_manager, manager_get,
  invalidate_related,
}
use xzcccc_smart_media.Manager.Cascade.{get-invalidate_related}

-- Two values under one key, in two versions.
abbrev ops : List (Op ℕ)
ops =
    set_op 5 "a" (some 7) use_default
    ∷ get_op 6 "a"
    ∷ increment_op 7
    ∷ set_op 8 "a" (some 8) use_default
    ∷ []

abbrev manager : CacheManager ℕ
manager = record (new_manager true true true 0) {
  spaces = λ n.
      perform_all ops
        (new_space (default_namespace_sizes n) (default_namespace_ttls n) true true 0);
}

positive : (n : CacheNamespace) → 0 < default_namespace_sizes n
positive link = omega arith
positive file_size = omega arith
positive tmdb = omega arith
positive quark_api = omega arith
positive strm = omega arith
positive emby = omega arith
positive proxy = omega arith
positive rename = omega arith
positive scrape = omega arith
positive general = omega arith

manager-IsSound : (n : CacheNamespace) → IsSound (manager.spaces n)
manager-IsSound n =
    perform_all-IsSound ops _
      (new_space-IsSound (default_namespace_sizes n) (default_namespace_ttls n) 0 true (positive n))

get-invalidate_related_example :
    (manager_get 10 link "a" (invalidate_related 9 quark_api none true manager).0).1 ≡ none
unfolding any new_manager
get-invalidate_related_example =
    get-invalidate_related 9 10 quark_api link "a" true manager refl manager-IsSound
