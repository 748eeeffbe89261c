-- ===== src/Lru/Lookup.antt =====
-- What can be read from an `LRUCache` after an operation.
use xzcccc_smart_media.Base.{
  ℕ, suc, ◌+◌, ◌≡◌, refl, String, [], ◌∷◌, Bool, true, false, Option, none, some, leb,
  if◌then◌else◌, length, arith, Bool-cases, Option-cases, inl, inr, str_eq, eq_iff, seconds,
}
use xzcccc_smart_media.Dict
use xzcccc_smart_media.Dict.{Dict, IsDict, IsDict-remove, get-remove, get-put, get-append}
use xzcccc_smart_media.Lru.Cache.{
  Entry, LruCache, Result, ok, key_error, expired, move_to_end, get, make_room, store, set,
}
use xzcccc_smart_media.Lru.Invariant.{IsValid, remove-contains}

abbrev pub is_key : String → Option String → Bool
is_key j none = false
is_key j (some k) = str_eq k j

-- Whether what was written at `now` with the first time to live, in a cache with the second one, may
-- still be read at `later`.
abbrev pub alive : Option ℕ → Option ℕ → ℕ → ℕ → Bool
alive none none now later = true
alive none (some t) now later = leb later (now + seconds t)
alive (some t) _ now later = leb later (now + seconds t)

module _ {V : Type 0} where
  get-move_to_end :
      (k j : String) (e : Entry V) (d : Dict (Entry V))
      → Dict.get k d ≡ some e
      → Dict.get j (move_to_end k e d) ≡ Dict.get j d
  get-move_to_end k j e d found = ground (
    arith,
    get-append k j e (Dict.remove k d) (remove-contains k d),
    get-remove k j d,
    eq_iff k j,
  )

  -- A look-up returns the stored value unless its time is over, and it changes nothing that a
  -- later look-up can find, but that an expired entry of its key is dropped.
  pub get_lem :
      (now : ℕ) (k j : String) (c : LruCache V)
      → ((get now k c).1 ≡ elim (Dict.get k c.cache) [
        | none ↦ none
        | some e ↦ if expired now c e then none else e.value
      ])
        × (Dict.get j (get now k c).0.cache ≡ elim (Dict.get k c.cache) [
          | none ↦ Dict.get j c.cache
          | some e ↦
              if expired now c e
              then (if str_eq k j then none else Dict.get j c.cache)
              else Dict.get j c.cache
        ])
  unfolding get
  get_lem now k j c = elim (Option-cases (Dict.get k c.cache)) [
    | inl miss ↦ (rw (miss, get), rw (miss, get))
    | inr (e, found) ↦ elim (Bool-cases (expired now c e)) [
      | inl old ↦ (rw (found, get) (rw old), rw (found, get) (rw old (get-remove k j c.cache)))
      | inr live ↦ (
        rw (found, get) (rw live),
        rw (found, get) (rw live (get-move_to_end k j e c.cache found)),
      )
    ]
  ]

  -- The key that `set` evicts: the first one, if the cache is full without the key that is set.
  unfoldable pub victim : ℕ → Dict (Entry V) → Option String
  victim maxsize [] = none
  victim maxsize ((k, e) ∷ rest) = if leb maxsize (suc (length rest)) then some k else none

  pub get-make_room :
      (n : ℕ) (j : String) (d kept : Dict (Entry V)) (evicted : Bool)
      → IsDict d
      → make_room n d ≡ ok (kept, evicted)
      → Dict.get j kept ≡ (if is_key j (victim n d) then none else Dict.get j d)
  unfolding make_room victim Dict.get
  get-make_room n j [] kept evicted u h = ground arith
  get-make_room n j ((k, e) ∷ rest) kept evicted u h =
      elim (Bool-cases (leb n (suc (length rest)))) [
        | inl full ↦
            let same : kept ≡ rest = ground arith in rw same (rw full (ground (arith, eq_iff k j)))
        | inr room ↦ let same : kept ≡ (k, e) ∷ rest = ground arith in rw same (rw room)
      ]

  -- A successful `set` has made room in the entries without its key, and put the entry there.
  pub set_ok :
      (now : ℕ) (k : String) (value : Option V) (ttl : Option ℕ) (c c' : LruCache V)
      → set now k value ttl c ≡ ok c'
      → (kept : Dict (Entry V)) × (evicted : Bool) × (make_room c.maxsize (Dict.remove k c.cache)
          ≡ ok (kept, evicted))
        × (c' ≡ store now k value ttl c kept evicted)
  unfolding set
  set_ok now k value ttl c c' h = go (make_room c.maxsize (Dict.remove k c.cache)) refl
    where
      go :
          (r : Result (Dict (Entry V) × Bool))
          → make_room c.maxsize (Dict.remove k c.cache) ≡ r
          → (kept : Dict (Entry V)) × (evicted : Bool) × (make_room c.maxsize
                (Dict.remove k c.cache)
              ≡ ok (kept, evicted))
            × (c' ≡ store now k value ttl c kept evicted)
      go (ok (kept, evicted)) e = let q = (rw (e, set) at h) in (kept, evicted, e, cc)
      go key_error e = let q = (rw (e, set) at h) in absurd (ground arith)

  -- A `set` writes its key, drops the key that it evicts, and leaves every other key as it was.
  pub get-set :
      (now : ℕ) (k j : String) (value : Option V) (ttl : Option ℕ) (c c' : LruCache V)
      → IsValid c
      → set now k value ttl c ≡ ok c'
      → Dict.get j c'.cache ≡ (
          if str_eq k j
          then some (record { value = value; timestamp = now; ttl = ttl })
          else if is_key j (victim c.maxsize (Dict.remove k c.cache))
          then none
          else Dict.get j c.cache)
  get-set now k j value ttl c c' v h =
      let (kept, evicted, room, e) = set_ok now k value ttl c c' h in
      rw e (
        ground (
          arith,
          get-put k j (record { value = value; timestamp = now; ttl = ttl }) kept,
          get-make_room c.maxsize j (Dict.remove k c.cache) kept evicted
              (IsDict-remove k c.cache v.distinct) room,
          get-remove k j c.cache,
        ))

  -- A `get` of the key that was set returns the value while its time to live, or else the cache's,
  -- has not passed, and None from then on.
  pub get-set_self :
      (now later : ℕ) (k : String) (value : Option V) (ttl : Option ℕ) (c c' : LruCache V)
      → IsValid c
      → set now k value ttl c ≡ ok c'
      → (get later k c').1 ≡ (if alive ttl c.ttl now later then value else none)
  unfolding expired
  get-set_self now later k value ttl c c' v h =
      let (kept, evicted, room, e) = set_ok now k value ttl c c' h in
      let same : c'.ttl ≡ c.ttl = ground arith in
      ground (arith, get-set now k k value ttl c c' v h, (get_lem later k k c').0, eq_iff k k)

  -- A look-up that returns a value has found it in an entry.
  pub get-some :
      (now : ℕ) (k : String) (c : LruCache V) (x : V)
      → (get now k c).1 ≡ some x
      → (e : Entry V) × (Dict.get k c.cache ≡ some e) × (e.value ≡ some x)
  get-some now k c x h = elim (Option-cases (Dict.get k c.cache)) [
    | inl miss ↦ absurd (ground (arith, (get_lem now k k c).0))
    | inr (e, found) ↦ (e, found, ground (arith, (get_lem now k k c).0))
  ]

  -- A look-up adds no entry.
  pub get_adds_nothing :
      (now : ℕ) (k j : String) (c : LruCache V) (e : Entry V)
      → Dict.get j (get now k c).0.cache ≡ some e
      → Dict.get j c.cache ≡ some e
  get_adds_nothing now k j c e h = ground (arith, (get_lem now k j c).1)
