-- ===== src/Lru/Cleanup.antt =====
-- `cleanup_expired` of `LRUCache`: it drops exactly what no `get` would return any more.
use xzcccc_smart_media.Base.{
  ℕ, ◌+◌, ◌≡◌, refl, String, List, [], ◌∷◌, Bool, false, not, some, keep, length, arith,
}
use xzcccc_smart_media.Dict
use xzcccc_smart_media.Dict.{Dict, IsDict, get-keep}
use xzcccc_smart_media.Lru.Cache.{Entry, LruCache, expired, get, cleanup_expired, size}
use xzcccc_smart_media.Lru.Invariant.{IsValid}
use xzcccc_smart_media.Lru.Lookup.{get_lem}

length-keep-not {ℓ} :
    {A : Type ℓ} (p : A → Bool) (xs : List A)
    → length (keep (λ x. not (p x)) xs) + length (keep p xs) ≡ length xs
unfolding keep
length-keep-not p [] = refl
length-keep-not p (x ∷ xs) = ground (arith, length-keep-not p xs)

-- After a cleanup a look-up at that time returns what it would have returned before, whatever the
-- key; the entries that are left have not expired; and the number that is returned is the number of
-- entries that are gone.
pub cleanup_expired_lem :
    {V : Type 0} (now : ℕ) (k : String) (c : LruCache V)
    → IsValid c
    → let (c', removed) = cleanup_expired now c in
      ((get now k c').1 ≡ (get now k c).1)
      × ((e : Entry V) → Dict.get k c'.cache ≡ some e → expired now c' e ≡ false)
      × (size c' + removed ≡ size c)
unfolding cleanup_expired expired
cleanup_expired_lem {V} now k c v =
    let c' = (cleanup_expired now c).0 in
    let here = get-keep (λ (e : Entry V). not (expired now c e)) k c.cache v.distinct in
    (
      ground (arith, (get_lem now k k c').0, (get_lem now k k c).0, here),
      (λ e found. ground (arith, here)),
      length-keep-not (λ item. expired now c item.1) c.cache,
    )
