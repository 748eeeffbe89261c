-- ===== src/LinkCache/Runs.antt =====
-- What holds of the cache of links over all runs, and what a look-up finds.
use xzcccc_smart_media.Base.{
  ℕ, ◌+◌, ◌≡◌, refl, [], ◌∷◌, List, true, false, ltb, leb, if◌then◌else◌, String, eq_iff, Option,
  none, some, length, seconds, arith, Bool-cases, Option-cases, inl, inr,
}
use xzcccc_smart_media.Dict
use xzcccc_smart_media.Dict.{Dict, IsDict-remove, IsDict-put, get-put}
use xzcccc_smart_media.Dict.Length.{length-remove-le, length-put, length-put-le}
use xzcccc_smart_media.LinkCache.Links.{
  LinkCache, new_link, link_expired, link_ttl, touch, get_link, cleanup_links, evict_oldest,
  room_for_link, set_link, delete_link, cleanup_round, clear_links,
}
use xzcccc_smart_media.LinkCache.Bound.{IsBounded, cleaned_lem, room_for_link-room}

pub data LinkCall (V : Type 0) : Type 0 where
  get_call : ℕ → String → LinkCall V
  set_call : ℕ → String → V → Dict String → Option ℕ → LinkCall V
  delete_call : String → LinkCall V
  cleanup_call : ℕ → LinkCall V
  clear_call : LinkCall V

module _ {V : Type 0} where
  unfoldable pub serve : LinkCall V → LinkCache V → LinkCache V
  serve (get_call now key) c = (get_link now key c).0
  serve (set_call now key value headers ttl) c = set_link now key value headers ttl c
  serve (delete_call key) c = (delete_link key c).0
  serve (cleanup_call now) c = cleanup_round now c
  serve clear_call c = clear_links c

  unfoldable pub run : List (LinkCall V) → LinkCache V → LinkCache V
  run [] c = c
  run (call ∷ calls) c = run calls (serve call c)

  room_for_link-max_size : (now : ℕ) (c : LinkCache V) → (room_for_link now c).max_size ≡ c.max_size
  unfolding room_for_link cleanup_links evict_oldest
  room_for_link-max_size now c = ground arith

  set_link-IsBounded :
      (now : ℕ) (key : String) (value : V) (headers : Dict String) (ttl : Option ℕ)
      (c : LinkCache V)
      → IsBounded c
      → IsBounded (set_link now key value headers ttl c)
  unfolding set_link
  set_link-IsBounded now key value headers ttl c h =
      let (distinct, room) = room_for_link-room now c h in
      let same = room_for_link-max_size now c in
      let new = new_link now value headers (link_ttl c ttl) in
      record {
        positive = omega (arith, same, h.positive);
        distinct = IsDict-put key new (room_for_link now c).links distinct;
        bounded = omega (arith, same, room, length-put-le key new (room_for_link now c).links);
      }

  get_link-IsBounded :
      (now : ℕ) (key : String) (c : LinkCache V) → IsBounded c → IsBounded (get_link now key c).0
  unfolding get_link
  get_link-IsBounded now key c h = elim (Option-cases (Dict.get key c.links)) [
    | inl miss ↦ rw (miss, get_link) h
    | inr (e, found) ↦ elim (Bool-cases (link_expired now e)) [
      | inl old ↦
          rw (found, get_link)
            (rw old (record {
              positive = h.positive;
              distinct = IsDict-remove key c.links h.distinct;
              bounded = omega (arith, length-remove-le key c.links, h.bounded);
            }))
      | inr live ↦
          let there : Dict.contains key c.links ≡ true = rw found refl in
          let size : length (Dict.put key (touch now e) c.links) ≡ length c.links + 0 =
            rw there at (length-put key (touch now e) c.links) in
          rw (found, get_link)
            (rw live (record {
              positive = h.positive;
              distinct = IsDict-put key (touch now e) c.links h.distinct;
              bounded = omega (arith, size, h.bounded);
            }))
    ]
  ]

  delete_link-IsBounded :
      (key : String) (c : LinkCache V) → IsBounded c → IsBounded (delete_link key c).0
  unfolding delete_link
  delete_link-IsBounded key c h = elim (Bool-cases (Dict.contains key c.links)) [
    | inr gone ↦ simp gone h
    | inl there ↦ simp there (record {
      positive = h.positive;
      distinct = IsDict-remove key c.links h.distinct;
      bounded = omega (arith, length-remove-le key c.links, h.bounded);
    })
  ]

  cleanup_links-max_size : (now : ℕ) (c : LinkCache V) → (cleanup_links now c).max_size ≡ c.max_size
  unfolding cleanup_links
  cleanup_links-max_size now c = refl

  cleanup_links-IsBounded :
      (now : ℕ) (c : LinkCache V) → IsBounded c → IsBounded (cleanup_links now c)
  cleanup_links-IsBounded now c h =
      let (distinct, le) = cleaned_lem now c h.distinct in
      let same = cleanup_links-max_size now c in
      record {
        positive = omega (arith, same, h.positive);
        distinct = distinct;
        bounded = omega (arith, same, le, h.bounded);
      }

  cleanup_round-IsBounded :
      (now : ℕ) (c : LinkCache V) → IsBounded c → IsBounded (cleanup_round now c)
  unfolding cleanup_round
  cleanup_round-IsBounded now c h =
      let clean = cleanup_links-IsBounded now c h in
      let within : ltb (cleanup_links now c).max_size (length (cleanup_links now c).links) ≡ false =
        ground (arith, clean.bounded) in
      simp within clean

  serve-IsBounded : (call : LinkCall V) (c : LinkCache V) → IsBounded c → IsBounded (serve call c)
  unfolding serve clear_links
  serve-IsBounded (get_call now key) c h = get_link-IsBounded now key c h
  serve-IsBounded (set_call now key value headers ttl) c h =
      set_link-IsBounded now key value headers ttl c h
  serve-IsBounded (delete_call key) c h = delete_link-IsBounded key c h
  serve-IsBounded (cleanup_call now) c h = cleanup_round-IsBounded now c h
  serve-IsBounded clear_call c h = record {
    positive = h.positive;
    distinct = tt;
    bounded = omega arith;
  }

  -- From a cache with distinct keys, room for a link at least and no more links than its size, every
  -- run of look-ups, writes, deletions, cleanups and clearings, at any times, leads to such a cache.
  pub run-IsBounded :
      (calls : List (LinkCall V)) (c : LinkCache V) → IsBounded c → IsBounded (run calls c)
  unfolding run
  run-IsBounded [] c h = h
  run-IsBounded (call ∷ calls) c h = run-IsBounded calls (serve call c) (serve-IsBounded call c h)

  -- A look-up after a write finds the link with its value and headers until its time to live has
  -- passed, and nothing from then on, whatever the cache held before. The time to live is the one
  -- that was given, or the default one if none or 0 was given.
  pub get_link-set_link :
      (now later : ℕ) (key : String) (value : V) (headers : Dict String) (ttl : Option ℕ)
      (c : LinkCache V)
      → (get_link later key (set_link now key value headers ttl c)).1 ≡ (
          if leb later (now + seconds (link_ttl c ttl))
          then some (touch later (new_link now value headers (link_ttl c ttl)))
          else none)
  unfolding get_link set_link
  get_link-set_link now later key value headers ttl c =
      let new = new_link now value headers (link_ttl c ttl) in
      let found : Dict.get key (Dict.put key new (room_for_link now c).links) ≡ some new =
        ground (arith, get-put key key new (room_for_link now c).links, eq_iff key key) in
      elim (Bool-cases (leb later (now + seconds (link_ttl c ttl)))) [
        | inl live ↦
            let l : link_expired later new ≡ false = ground arith in
            rw live (rw (found, get_link) (rw l refl))
        | inr over ↦
            let l : link_expired later new ≡ true = ground arith in
            rw over (rw (found, get_link) (rw l refl))
      ]
