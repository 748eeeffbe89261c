-- ===== src/Lru/Invariant.antt =====
-- Every operation of `LRUCache` keeps the keys distinct and the cache within `maxsize`, and `set`
-- raises nothing.
use xzcccc_smart_media.Base.{
  ℕ, suc, ◌≤◌, ◌<◌, ◌≡◌, String, [], ◌∷◌, Bool, true, false, not, Option, some, leb, length, arith,
  Bool-cases, Option-cases, inl, inr, length-append, length-keep-le, eq_iff,
}
use xzcccc_smart_media.Dict
use xzcccc_smart_media.Dict.{
  Dict, IsDict, IsDict-remove, IsDict-put, IsDict-keep, IsDict-append, get-remove,
}
use xzcccc_smart_media.Dict.Length.{length-remove, length-remove-le, length-put-le}
use xzcccc_smart_media.Lru.Cache.{
  Entry, Stats, LruCache, ok, expired, move_to_end, get, make_room, store, set, delete,
  cleanup_expired, contains,
}

pub record IsValid {V : Type 0} (c : LruCache V) : Type 0 where
  pub positive : 0 < c.maxsize
  pub distinct : IsDict c.cache
  pub bounded : length c.cache ≤ c.maxsize

module _ {V : Type 0} where
  -- A removed key is gone.
  pub remove-contains :
      (k : String) (d : Dict (Entry V)) → Dict.contains k (Dict.remove k d) ≡ false
  remove-contains k d = ground (arith, get-remove k k d, eq_iff k k)

  IsDict-move_to_end :
      (k : String) (e : Entry V) (d : Dict (Entry V)) → IsDict d → IsDict (move_to_end k e d)
  IsDict-move_to_end k e d h =
      IsDict-append k e (Dict.remove k d) (IsDict-remove k d h) (remove-contains k d)

  length-move_to_end :
      (k : String) (e : Entry V) (d : Dict (Entry V))
      → IsDict d
      → Dict.get k d ≡ some e
      → length (move_to_end k e d) ≡ length d
  length-move_to_end k e d h found =
      omega
        (arith, length-append (Dict.remove k d) ((k, e) ∷ []), rw found at (length-remove k d h))

  -- Whatever a look-up does to the entries, it is one of three things.
  touched :
      (k : String) (c : LruCache V) (e : Entry V) (stats : Stats)
      → Dict.get k c.cache ≡ some e
      → IsValid c
      → IsValid (record c { cache = Dict.remove k c.cache; stats = stats })
        × IsValid (record c { cache = move_to_end k e c.cache; stats = stats })
  touched k c e stats found v = (
    record {
      positive = v.positive;
      distinct = IsDict-remove k c.cache v.distinct;
      bounded = omega (arith, length-remove-le k c.cache, v.bounded);
    },
    record {
      positive = v.positive;
      distinct = IsDict-move_to_end k e c.cache v.distinct;
      bounded = omega (arith, length-move_to_end k e c.cache v.distinct found, v.bounded);
    },
  )

  -- A look-up keeps the keys distinct and the cache within `maxsize`, whether it finds its key, drops
  -- it as expired, or misses.
  pub get-IsValid : (now : ℕ) (k : String) (c : LruCache V) → IsValid c → IsValid (get now k c).0
  unfolding get
  get-IsValid now k c v = elim (Option-cases (Dict.get k c.cache)) [
    | inl miss ↦
        rw (miss, get)
          (record { positive = v.positive; distinct = v.distinct; bounded = v.bounded })
    | inr (e, found) ↦ elim (Bool-cases (expired now c e)) [
      | inl old ↦ rw (found, get) (rw old (touched k c e _ found v).0)
      | inr live ↦ rw (found, get) (rw live (touched k c e _ found v).1)
    ]
  ]

  pub contains-IsValid :
      (now : ℕ) (k : String) (c : LruCache V) → IsValid c → IsValid (contains now k c).0
  unfolding contains
  contains-IsValid now k c v = elim (Option-cases (Dict.get k c.cache)) [
    | inl miss ↦ rw (miss, contains) v
    | inr (e, found) ↦ elim (Bool-cases (expired now c e)) [
      | inl old ↦ rw (found, contains) (rw old (touched k c e _ found v).0)
      | inr live ↦ rw (found, contains) (rw live (touched k c e _ found v).1)
    ]
  ]

  make_room_ok :
      (n : ℕ) (d : Dict (Entry V))
      → 0 < n
      → length d ≤ n
      → IsDict d
      → (kept : Dict (Entry V)) × (evicted : Bool) × (make_room n d ≡ ok (kept, evicted))
        × (length kept < n)
        × IsDict kept
  unfolding make_room
  make_room_ok n [] pos h u = ([], false, ground arith, omega arith, tt)
  make_room_ok n (x ∷ rest) pos h u = elim (Bool-cases (leb n (suc (length rest)))) [
    | inl full ↦ (rest, true, rw full, omega arith, u.1)
    | inr room ↦ (x ∷ rest, false, rw room, ground arith, u)
  ]

  -- On a cache with room for an entry at least, `set` raises nothing and keeps the keys distinct and
  -- the cache within `maxsize`.
  pub set-IsValid :
      (now : ℕ) (k : String) (value : Option V) (ttl : Option ℕ) (c : LruCache V)
      → IsValid c
      → (c' : LruCache V) × (set now k value ttl c ≡ ok c') × IsValid c'
  unfolding set
  set-IsValid now k value ttl c v =
      let bounded : length (Dict.remove k c.cache) ≤ c.maxsize =
        omega (arith, length-remove-le k c.cache, v.bounded) in
      let (kept, evicted, e, room, distinct) =
        make_room_ok c.maxsize (Dict.remove k c.cache) v.positive bounded
          (IsDict-remove k c.cache v.distinct) in
      let new : Entry V = record { value = value; timestamp = now; ttl = ttl } in
      (
        store now k value ttl c kept evicted,
        rw (e, set),
        record {
          positive = v.positive;
          distinct = IsDict-put k new kept distinct;
          bounded = omega (arith, length-put-le k new kept, room);
        },
      )

  pub delete-IsValid : (k : String) (c : LruCache V) → IsValid c → IsValid (delete k c).0
  unfolding delete
  delete-IsValid k c v = elim (Option-cases (Dict.get k c.cache)) [
    | inl miss ↦ rw miss v
    | inr (e, found) ↦ rw found (touched k c e _ found v).0
  ]

  pub cleanup_expired-IsValid :
      (now : ℕ) (c : LruCache V) → IsValid c → IsValid (cleanup_expired now c).0
  unfolding cleanup_expired
  cleanup_expired-IsValid now c v = record {
    positive = v.positive;
    distinct = IsDict-keep _ c.cache v.distinct;
    bounded = omega (arith, length-keep-le (λ item. not (expired now c item.1)) c.cache, v.bounded);
  }
