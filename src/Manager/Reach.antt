-- ===== src/Manager/Reach.antt =====
-- What can be reached in a namespace after its version has changed.
use xzcccc_smart_media.Base.{
  ℕ, ◌+◌, ◌<◌, ◌≡◌, refl, String, List, [], ◌∷◌, Bool, true, false, not, Option, none, some, arith,
  Bool-cases, Option-cases, inl, inr, str_eq, eq_iff,
}
use xzcccc_smart_media.Dict
use xzcccc_smart_media.Dict.{Dict, get-keep, get-remove}
use xzcccc_smart_media.Lru.Cache as Lru
use xzcccc_smart_media.Lru.Cache.{Entry, LruCache, Result, ok, key_error, expired}
use xzcccc_smart_media.Lru.Invariant.{
  IsValid, get-IsValid, set-IsValid, delete-IsValid, cleanup_expired-IsValid,
}
use xzcccc_smart_media.Lru.Lookup.{get_lem, get-set, get_adds_nothing}
use xzcccc_smart_media.Manager.Decimal.{versioned, versioned_inj}
use xzcccc_smart_media.Manager.Space.{
  NamespacedCache, Ttl, space_ttl, new_space, get_versioned_key, increment_version, space_get,
  space_set, space_delete, space_clear, space_cleanup,
}

-- The operations on a namespace, each with its time.
pub data Op (V : Type 0) : Type 0 where
  get_op : ℕ → String → Op V
  set_op : ℕ → String → Option V → Ttl → Op V
  delete_op : String → Op V
  clear_op : Op V
  cleanup_op : ℕ → Op V
  increment_op : ℕ → Op V

module _ {V : Type 0} where
  -- No entry stands under a key of a version that is still to come.
  abbrev pub IsFresh : ℕ → LruCache V → Type 0
  IsFresh version c =
      (n : ℕ) (key : String) → version < n → Dict.get (versioned n key) c.cache ≡ none

  pub record IsSound (c : NamespacedCache V) : Type 0 where
    pub versions : c.enable_versioning ≡ true
    pub valid : IsValid c.lru
    pub fresh : IsFresh c.version c.lru

  -- What the look-ups of a first cache find, a second cache that finds no more does not find.
  fresh_of_less :
      (version : ℕ) (c d : LruCache V)
      → ((k : String) (e : Entry V) → Dict.get k d.cache ≡ some e → Dict.get k c.cache ≡ some e)
      → IsFresh version c
      → IsFresh version d
  fresh_of_less version c d less f n key lt =
      elim (Option-cases (Dict.get (versioned n key) d.cache)) [
        | inl gone ↦ gone
        | inr (e, found) ↦ absurd (ground (arith, less (versioned n key) e found, f n key lt))
      ]

  get-IsSound :
      (now : ℕ) (key : String) (c : NamespacedCache V) → IsSound c → IsSound (space_get now key c).0
  unfolding space_get
  get-IsSound now key c s = record {
    versions = s.versions;
    valid = get-IsValid now (get_versioned_key c key) c.lru s.valid;
    fresh =
        fresh_of_less c.version c.lru (Lru.get now (get_versioned_key c key) c.lru).0
          (λ k e found. get_adds_nothing now (get_versioned_key c key) k c.lru e found) s.fresh;
  }

  -- A key of the present version is none of a version to come.
  not_new :
      (c : NamespacedCache V) (key : String) (n : ℕ) (other : String)
      → c.enable_versioning ≡ true
      → c.version < n
      → str_eq (get_versioned_key c key) (versioned n other) ≡ false
  not_new c key n other on lt =
      elim (Bool-cases (str_eq (get_versioned_key c key) (versioned n other))) [
        | inr differ ↦ differ
        | inl same ↦
            let p : versioned c.version key ≡ versioned n other = rw on at ((eq_iff _ _).0 same) in
            absurd (omega (arith, (versioned_inj c.version n key other p).0, lt))
      ]

  -- `set` raises nothing on a sound cache.
  set-IsSound :
      (now : ℕ) (key : String) (value : Option V) (ttl : Ttl) (c : NamespacedCache V)
      → IsSound c
      → (c' : NamespacedCache V) × (space_set now key value ttl c ≡ ok c') × IsSound c'
  unfolding space_set
  set-IsSound now key value ttl c s =
      let (lru', done, v) =
        set-IsValid now (get_versioned_key c key) value (some (space_ttl c ttl)) c.lru s.valid in
      (
        record c { lru = lru' },
        rw (done, space_set),
        record {
          versions = s.versions;
          valid = v;
          fresh = λ n other lt.
              let j = versioned n other in
              ground (
                arith,
                get-set now (get_versioned_key c key) j value (some (space_ttl c ttl)) c.lru lru'
                    s.valid done,
                not_new c key n other s.versions lt,
                s.fresh n other lt,
              );
        },
      )

  delete_adds_nothing :
      (k j : String) (c : LruCache V) (e : Entry V)
      → Dict.get j (Lru.delete k c).0.cache ≡ some e
      → Dict.get j c.cache ≡ some e
  unfolding Lru.delete
  delete_adds_nothing k j c e found = ground (arith, get-remove k j c.cache)

  delete-IsSound :
      (key : String) (c : NamespacedCache V) → IsSound c → IsSound (space_delete key c).0
  unfolding space_delete
  delete-IsSound key c s = record {
    versions = s.versions;
    valid = delete-IsValid (get_versioned_key c key) c.lru s.valid;
    fresh =
        fresh_of_less c.version c.lru (Lru.delete (get_versioned_key c key) c.lru).0
          (λ k e found. delete_adds_nothing (get_versioned_key c key) k c.lru e found) s.fresh;
  }

  cleanup_adds_nothing :
      (now : ℕ) (k : String) (c : LruCache V) (e : Entry V)
      → IsValid c
      → Dict.get k (Lru.cleanup_expired now c).0.cache ≡ some e
      → Dict.get k c.cache ≡ some e
  unfolding Lru.cleanup_expired
  cleanup_adds_nothing now k c e v found =
      ground (arith, get-keep (λ (x : Entry V). not (expired now c x)) k c.cache v.distinct)

  cleanup-IsSound : (now : ℕ) (c : NamespacedCache V) → IsSound c → IsSound (space_cleanup now c).0
  unfolding space_cleanup
  cleanup-IsSound now c s = record {
    versions = s.versions;
    valid = cleanup_expired-IsValid now c.lru s.valid;
    fresh =
        fresh_of_less c.version c.lru (Lru.cleanup_expired now c.lru).0
          (λ k e found. cleanup_adds_nothing now k c.lru e s.valid found) s.fresh;
  }

  clear-IsSound : (c : NamespacedCache V) → IsSound c → IsSound (space_clear c)
  unfolding space_clear Lru.clear Dict.get
  clear-IsSound c s = record {
    versions = s.versions;
    valid = record { positive = s.valid.positive; distinct = tt; bounded = omega arith };
    fresh = λ n key lt. refl;
  }

  increment-IsSound :
      (now : ℕ) (c : NamespacedCache V) → IsSound c → IsSound (increment_version now c)
  unfolding increment_version
  increment-IsSound now c s = record {
    versions = s.versions;
    valid = s.valid;
    fresh = λ n key lt. s.fresh n key (omega arith);
  }

  -- What the namespace is after an operation; one that raises leaves it as it was.
  unfoldable pub perform : Op V → NamespacedCache V → NamespacedCache V
  perform (get_op now key) c = (space_get now key c).0
  perform (set_op now key value ttl) c = elim (space_set now key value ttl c) [
    | ok c' ↦ c'
    | key_error ↦ c
  ]
  perform (delete_op key) c = (space_delete key c).0
  perform clear_op c = space_clear c
  perform (cleanup_op now) c = (space_cleanup now c).0
  perform (increment_op now) c = increment_version now c

  unfoldable pub perform_all : List (Op V) → NamespacedCache V → NamespacedCache V
  perform_all [] c = c
  perform_all (op ∷ ops) c = perform_all ops (perform op c)

  perform-IsSound : (op : Op V) (c : NamespacedCache V) → IsSound c → IsSound (perform op c)
  unfolding perform
  perform-IsSound (get_op now key) c s = get-IsSound now key c s
  perform-IsSound (set_op now key value ttl) c s =
      let (c', done, s') = set-IsSound now key value ttl c s in rw (done, perform) s'
  perform-IsSound (delete_op key) c s = delete-IsSound key c s
  perform-IsSound clear_op c s = clear-IsSound c s
  perform-IsSound (cleanup_op now) c s = cleanup-IsSound now c s
  perform-IsSound (increment_op now) c s = increment-IsSound now c s

  -- Every operation keeps it, so it holds after any of them.
  pub perform_all-IsSound :
      (ops : List (Op V)) (c : NamespacedCache V) → IsSound c → IsSound (perform_all ops c)
  unfolding perform_all
  perform_all-IsSound [] c s = s
  perform_all-IsSound (op ∷ ops) c s =
      perform_all-IsSound ops (perform op c) (perform-IsSound op c s)

  pub new_space-IsSound :
      (max_size default_ttl now : ℕ) (stats : Bool)
      → 0 < max_size
      → IsSound (new_space {V = V} max_size default_ttl stats true now)
  unfolding new_space Lru.init Dict.get
  new_space-IsSound max_size default_ttl now stats pos = record {
    versions = refl;
    valid = record { positive = pos; distinct = tt; bounded = omega arith };
    fresh = λ n key lt. refl;
  }

  -- A new version of a sound namespace makes everything unreachable.
  pub get-increment_version :
      (now later : ℕ) (key : String) (c : NamespacedCache V)
      → IsSound c
      → (space_get later key (increment_version now c)).1 ≡ none
  unfolding increment_version space_get
  get-increment_version now later key c s =
      let gone = s.fresh (c.version + 1) key (omega arith) in
      let k = versioned (c.version + 1) key in
      rw s.versions (ground (arith, (get_lem later k k c.lru).0, gone))

  -- In a namespace with versions and room for an entry at least, after any operations on it, a new
  -- version makes everything unreachable: a look-up of any key at any time finds nothing.
  pub increment_forgets :
      (max_size default_ttl start now later : ℕ) (stats : Bool) (ops : List (Op V)) (key : String)
      → 0 < max_size
      → (space_get later key (
          increment_version now
            (perform_all ops (new_space max_size default_ttl stats true start)))).1
        ≡ none
  increment_forgets max_size default_ttl start now later stats ops key pos =
      let new = new_space-IsSound max_size default_ttl start stats pos in
      get-increment_version now later key _ (perform_all-IsSound ops _ new)
