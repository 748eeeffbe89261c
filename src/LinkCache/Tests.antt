-- ===== src/LinkCache/Tests.antt =====
-- Runs of the cache of links, and the theorems on a cache of two links.
use xzcccc_smart_media.Base.{ℕ, ◌≡◌, refl, [], ◌∷◌, map, none, some, arith, keep}
use xzcccc_smart_media.Dict
use xzcccc_smart_media.Dict.{Dict}
use xzcccc_smart_media.Text.Split.{join_with}
use xzcccc_smart_media.LinkCache.Links.{
  LinkEntry, LinkCache, insert_sorted, sort_by, stable_parts, generate_cache_key, new_link,
  set_link, room_for_link, cleanup_links, evict_oldest, remove_keys,
}
use xzcccc_smart_media.LinkCache.Bound.{IsBounded}
use xzcccc_smart_media.LinkCache.Runs.{get_call, set_call, run, run-IsBounded}

abbrev link_of : ℕ → LinkEntry ℕ
link_of n = record (new_link 0 n [] 600) { last_accessed_at = n }

-- A full cache, whose second link is the one used longest ago.
abbrev two_links : LinkCache ℕ
two_links = record {
  default_ttl = 600;
  max_size = 2;
  links = ("a", link_of 7) ∷ ("b", link_of 5) ∷ [];
}

set_link-evicts : map (λ item. item.0) (set_link 9 "c" 3 [] none two_links).links ≡ "a" ∷ "c" ∷ []
unfolding set_link room_for_link cleanup_links keep evict_oldest remove_keys sort_by insert_sorted
    Dict.remove Dict.put
set_link-evicts = refl

generate_cache_key-sorted :
    generate_cache_key "f" (("b", some "2") ∷ ("x", none) ∷ ("a", some "1") ∷ []) ≡ "f:a=1:b=2"
unfolding generate_cache_key join_with stable_parts sort_by insert_sorted
generate_cache_key-sorted = refl

two_links-IsBounded : IsBounded two_links
unfolding Dict.get
two_links-IsBounded = record {
  positive = omega arith;
  distinct = (refl, (refl, tt));
  bounded = omega arith;
}

run-IsBounded_example : IsBounded (run (set_call 9 "c" 3 [] none ∷ get_call 10 "a" ∷ []) two_links)
run-IsBounded_example =
    run-IsBounded (set_call 9 "c" 3 [] none ∷ get_call 10 "a" ∷ []) two_links two_links-IsBounded
