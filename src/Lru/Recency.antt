-- ===== src/Lru/Recency.antt =====
-- The order of eviction: the entries stand in the order of their last use, and the cache gives up
-- the one that was not used for longest.
use xzcccc_smart_media.Base.{
  ℕ, suc, ◌+◌, ◌≤◌, ◌<◌, ◌≡◌, refl, String, List, [], ◌∷◌, ◌++◌, Bool, true, false, Option, some,
  leb, if◌then◌else◌, length, arith, Bool-cases, Option-cases, inl, inr, str_eq, eq_iff, All, ◌∙◌,
  length-append,
}
use mathlib.Core.Path.{subst}
use text.Mathlib.TextPositions.{eq_refl}
use xzcccc_smart_media.Dict
use xzcccc_smart_media.Dict.{Dict, IsDict-remove, get-remove, get-put, put_new}
use xzcccc_smart_media.Dict.Length.{length-remove-le, length-put-le}
use xzcccc_smart_media.Lru.Cache.{Entry, LruCache, Result, ok, key_error, get, make_room, set}
use xzcccc_smart_media.Lru.Invariant.{IsValid, remove-contains, get-IsValid, set-IsValid}
use xzcccc_smart_media.Lru.Lookup.{get_lem, set_ok, get-set, get-make_room}

-- One use of the cache, by `set` or by `get`.
pub data Use (V : Type 0) : Type 0 where
  write : ℕ → String → Option V → Option ℕ → Use V
  read : ℕ → String → Use V

module _ {V : Type 0} where
  -- How many entries were used after the one with the key.
  unfoldable pub age : String → Dict (Entry V) → ℕ
  age k [] = 0
  age k ((j, e) ∷ d) = if str_eq j k then length d else age k d

  age-remove :
      (j k : String) (d : Dict (Entry V)) → str_eq j k ≡ false → age k (Dict.remove j d) ≤ age k d
  unfolding age Dict.remove
  age-remove j k [] h = ground arith
  age-remove j k ((i, e) ∷ d) h =
      ground (arith, age-remove j k d h, length-remove-le j d, eq_iff i j, eq_iff i k, eq_iff j k)

  age-append :
      (j k : String) (e : Entry V) (d : Dict (Entry V))
      → Dict.contains k d ≡ true
      → age k (d ++ (j, e) ∷ []) ≡ age k d + 1
  unfolding age Dict.get
  age-append j k e [] h = ground arith
  age-append j k e ((i, x) ∷ d) h =
      ground (arith, age-append j k e d, length-append d ((j, e) ∷ []))

  age-append_self :
      (k : String) (e : Entry V) (d : Dict (Entry V))
      → Dict.contains k d ≡ false
      → age k (d ++ (k, e) ∷ []) ≡ 0
  unfolding age Dict.get
  age-append_self k e [] h = ground (arith, eq_iff k k)
  age-append_self k e ((i, x) ∷ d) h = ground (arith, age-append_self k e d)

  age-put :
      (j k : String) (e : Entry V) (d : Dict (Entry V))
      → str_eq j k ≡ false
      → Dict.contains k d ≡ true
      → age k (Dict.put j e d) ≤ age k d + 1
  unfolding age Dict.get Dict.put
  age-put j k e [] h c = absurd (ground arith)
  age-put j k e ((i, x) ∷ d) h c =
      ground (arith, age-put j k e d h, length-put-le j e d, eq_iff i j, eq_iff i k, eq_iff j k)

  -- Making room gives up the entry with the greatest age, if any.
  age-make_room :
      (n : ℕ) (k : String) (d kept : Dict (Entry V)) (evicted : Bool)
      → age k d + 1 < n
      → make_room n d ≡ ok (kept, evicted)
      → (Dict.get k kept ≡ Dict.get k d) × (age k kept ≤ age k d)
  unfolding make_room age Dict.get
  age-make_room n k [] kept evicted young h =
      let e : kept ≡ [] = ground arith in rw e (refl, omega arith)
  age-make_room n k ((j, e) ∷ rest) kept evicted young h =
      elim (Bool-cases (leb n (suc (length rest)))) [
        | inl full ↦
            let same : kept ≡ rest = ground arith in
            let other : str_eq j k ≡ false = ground arith in rw same (rw other (refl, omega arith))
        | inr room ↦ let same : kept ≡ (j, e) ∷ rest = ground arith in rw same (refl, omega arith)
      ]

  -- Writing another key: the key is still there, and its age has grown by one at most.
  set-young :
      (now : ℕ) (j k : String) (value : Option V) (ttl : Option ℕ) (c c' : LruCache V)
      → str_eq j k ≡ false
      → Dict.contains k c.cache ≡ true
      → age k c.cache + 1 < c.maxsize
      → set now j value ttl c ≡ ok c'
      → (Dict.get k c'.cache ≡ Dict.get k c.cache) × (age k c'.cache ≤ age k c.cache + 1)
  set-young now j k value ttl c c' other there young h =
      let (kept, evicted, room, e) = set_ok now j value ttl c c' h in
      let entry : Entry V = record { value = value; timestamp = now; ttl = ttl } in
      let removed = age-remove j k c.cache other in
      let (same, le) =
        age-make_room c.maxsize k (Dict.remove j c.cache) kept evicted (omega arith) room in
      let found : Dict.get k kept ≡ Dict.get k c.cache =
        same ∙ (get-remove j k c.cache ∙ rw other) in
      rw e (
        get-put j k entry kept ∙ rw (other) found,
        omega (arith, age-put j k entry kept other (rw found there), le, removed),
      )

  -- Reading another key does the same.
  get-young :
      (now : ℕ) (j k : String) (c : LruCache V)
      → str_eq j k ≡ false
      → Dict.contains k c.cache ≡ true
      → (Dict.get k (get now j c).0.cache ≡ Dict.get k c.cache)
        × (age k (get now j c).0.cache ≤ age k c.cache + 1)
  unfolding get
  get-young now j k c other there =
      let removed = age-remove j k c.cache other in
      let still : Dict.contains k (Dict.remove j c.cache) ≡ true =
        ground (arith, get-remove j k c.cache) in
      elim (Option-cases (Dict.get j c.cache)) [
        | inl miss ↦ rw (miss, get) (refl, omega arith)
        | inr (e, found) ↦ (
          ground (arith, (get_lem now j k c).1),
          ground (arith, age-append j k e (Dict.remove j c.cache) still),
        )
      ]

  abbrev pub used_key : Use V → String
  used_key (write now k value ttl) = k
  used_key (read now k) = k

  unfoldable pub apply : Use V → LruCache V → Result (LruCache V)
  apply (write now k value ttl) c = set now k value ttl c
  apply (read now k) c = ok (get now k c).0

  unfoldable pub run : List (Use V) → LruCache V → Result (LruCache V)
  run [] c = ok c
  run (u ∷ us) c = let rest = run us in elim (apply u c) [ ok c' ↦ rest c' | key_error ↦ key_error ]

  -- No run raises on a valid cache, and the cache stays valid.
  apply-IsValid :
      (u : Use V) (c : LruCache V)
      → IsValid c
      → (c' : LruCache V) × (apply u c ≡ ok c') × IsValid c' × (c'.maxsize ≡ c.maxsize)
  unfolding apply
  apply-IsValid (write now k value ttl) c v =
      let (c', done, v') = set-IsValid now k value ttl c v in
      let (kept, evicted, room, e) = set_ok now k value ttl c c' done in
      (c', done, v', ground arith)
  apply-IsValid (read now k) c v =
      ((get now k c).0, refl, get-IsValid now k c v, unfold get in ground arith)

  apply-young :
      (u : Use V) (k : String) (c c' : LruCache V)
      → str_eq (used_key u) k ≡ false
      → Dict.contains k c.cache ≡ true
      → age k c.cache + 1 < c.maxsize
      → apply u c ≡ ok c'
      → (Dict.get k c'.cache ≡ Dict.get k c.cache) × (age k c'.cache ≤ age k c.cache + 1)
  unfolding apply
  apply-young (write now j value ttl) k c c' other there young h =
      set-young now j k value ttl c c' other there young h
  apply-young (read now j) k c c' other there young h =
      let e : c' ≡ (get now j c).0 = ground arith in rw e (get-young now j k c other there)

  -- A key keeps its entry through any uses of other keys, as long as its age and their number stay
  -- below `maxsize`.
  young_survives :
      (us : List (Use V)) (k : String) (c : LruCache V)
      → IsValid c
      → Dict.contains k c.cache ≡ true
      → All (λ u. str_eq (used_key u) k ≡ false) us
      → age k c.cache + length us < c.maxsize
      → (c' : LruCache V) × (run us c ≡ ok c') × (Dict.get k c'.cache ≡ Dict.get k c.cache)
  unfolding run
  young_survives [] k c v there others young = (c, refl, refl)
  young_survives (u ∷ us) k c v there others young =
      let (c1, step, v1, size) = apply-IsValid u c v in
      let (same, older) = apply-young u k c c1 others.0 there (omega arith) step in
      let (c2, rest, kept) = young_survives us k c1 v1 (rw same there) others.1 (omega arith) in
      (c2, rw (step, run) rest, kept ∙ same)

  age-set :
      (now : ℕ) (k : String) (value : Option V) (ttl : Option ℕ) (c c' : LruCache V)
      → IsValid c
      → set now k value ttl c ≡ ok c'
      → age k c'.cache ≡ 0
  age-set now k value ttl c c' v h =
      let (kept, evicted, room, e) = set_ok now k value ttl c c' h in
      let entry : Entry V = record { value = value; timestamp = now; ttl = ttl } in
      let gone : Dict.contains k kept ≡ false = ground (
        arith,
        get-make_room c.maxsize k (Dict.remove k c.cache) kept evicted
            (IsDict-remove k c.cache v.distinct) room,
        remove-contains k c.cache,
      ) in
      rw e (rw (put_new k entry kept gone) (age-append_self k entry kept gone))

  -- Least recently used: what was set last is still stored after any `maxsize - 1` uses of other
  -- keys, by reads and writes in any order, and none of them raises.
  pub set_survives :
      (now : ℕ) (k : String) (value : Option V) (ttl : Option ℕ) (us : List (Use V))
      (c c' : LruCache V)
      → IsValid c
      → set now k value ttl c ≡ ok c'
      → All (λ u. str_eq (used_key u) k ≡ false) us
      → length us < c.maxsize
      → (last : LruCache V) × (run us c' ≡ ok last)
        × (Dict.get k last.cache ≡ some (record { value = value; timestamp = now; ttl = ttl }))
  set_survives now k value ttl us c c' v h others few =
      let (c1, done, v1) = set-IsValid now k value ttl c v in
      let (kept, evicted, room, e) = set_ok now k value ttl c c' h in
      let same : c1 ≡ c' = ground arith in
      let valid : IsValid c' = subst (λ x. IsValid x) same v1 in
      let size : c'.maxsize ≡ c.maxsize = ground arith in
      let entry : Entry V = record { value = value; timestamp = now; ttl = ttl } in
      let found : Dict.get k c'.cache ≡ some entry =
        get-set now k k value ttl c c' v h ∙ rw (eq_refl k) in
      let young = age-set now k value ttl c c' v h in
      let (last, ran, kept_entry) = young_survives us k c' valid (rw found) others (omega arith) in
      (last, ran, kept_entry ∙ found)
