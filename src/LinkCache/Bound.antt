-- ===== src/LinkCache/Bound.antt =====
-- The cache of links stays within its size, and keeps what was set.
use xzcccc_smart_media.Base.{
  ℕ, zero, suc, ◌/◌, ◌≤◌, ◌<◌, max, ◌≡◌, refl, [], ◌∷◌, List, map, Bool, true, not, leb, String,
  eq_iff, length, take, All, arith, Bool-cases, inl, inr, length-keep-le,
}
use xzcccc_smart_media.Dict
use xzcccc_smart_media.Dict.{Dict, IsDict, IsDict-keep, IsDict-remove, IsDict-put, get-put}
use xzcccc_smart_media.Dict.Length.{length-remove, length-remove-le}
use xzcccc_smart_media.LinkCache.Links.{
  LinkEntry, LinkCache, insert_sorted, sort_by, link_expired, cleanup_links, used_before,
  by_last_access, remove_keys, evict_oldest, room_for_link,
}

module _ {A : Type 0} (less : A → A → Bool) (P : A → Type 0) where
  pub All-insert_sorted : (x : A) (xs : List A) → P x → All P xs → All P (insert_sorted less x xs)
  unfolding insert_sorted
  All-insert_sorted x [] h hs = (h, tt)
  All-insert_sorted x (y ∷ ys) h (hy, hs) = elim (Bool-cases (less y x)) [
    | inl before ↦ rw before (hy, All-insert_sorted x ys h hs)
    | inr after ↦ rw after (h, (hy, hs))
  ]

  pub All-sort_by : (xs : List A) → All P xs → All P (sort_by less xs)
  unfolding sort_by
  All-sort_by [] hs = tt
  All-sort_by (x ∷ xs) (h, hs) = All-insert_sorted x (sort_by less xs) h (All-sort_by xs hs)

module _ {A : Type 0} (less : A → A → Bool) where
  insert_sorted-some :
      (x : A) (xs : List A) → (y : A) × (ys : List A) × (insert_sorted less x xs ≡ y ∷ ys)
  unfolding insert_sorted
  insert_sorted-some x [] = (x, [], refl)
  insert_sorted-some x (y ∷ ys) = elim (Bool-cases (less y x)) [
    | inl before ↦ (y, insert_sorted less x ys, rw before refl)
    | inr after ↦ (x, y ∷ ys, rw after refl)
  ]

module _ {V : Type 0} where
  -- Room for a link at least, distinct keys, and no more links than the size allows.
  pub record IsBounded (c : LinkCache V) : Type 0 where
    pub positive : 0 < c.max_size
    pub distinct : IsDict c.links
    pub bounded : length c.links ≤ c.max_size

  All-weaken :
      (k : String) (e : LinkEntry V) (d other : Dict (LinkEntry V))
      → All (λ item. Dict.contains item.0 d ≡ true) other
      → All (λ item. Dict.contains item.0 ((k, e) ∷ d) ≡ true) other
  unfolding Dict.get
  All-weaken k e d [] h = tt
  All-weaken k e d ((j, f) ∷ other) (h, hs) = (ground arith, All-weaken k e d other hs)

  All-own_keys : (d : Dict (LinkEntry V)) → All (λ item. Dict.contains item.0 d ≡ true) d
  unfolding Dict.get
  All-own_keys [] = tt
  All-own_keys ((k, e) ∷ d) = (ground (arith, eq_iff k k), All-weaken k e d d (All-own_keys d))

  IsDict-remove_keys :
      (ks : List String) (d : Dict (LinkEntry V)) → IsDict d → IsDict (remove_keys ks d)
  unfolding remove_keys
  IsDict-remove_keys [] d h = h
  IsDict-remove_keys (k ∷ ks) d h = IsDict-remove_keys ks (Dict.remove k d) (IsDict-remove k d h)

  length-remove_keys-le :
      (ks : List String) (d : Dict (LinkEntry V)) → length (remove_keys ks d) ≤ length d
  unfolding remove_keys
  length-remove_keys-le [] d = omega arith
  length-remove_keys-le (k ∷ ks) d =
      omega (arith, length-remove_keys-le ks (Dict.remove k d), length-remove-le k d)

  -- The keys that an eviction removes: one at least, the first of them a key of the cache.
  victims :
      (d : Dict (LinkEntry V)) (n : ℕ)
      → 0 < length d
      → 0 < n
      → (k : String) × (ks : List String) × (map (λ item. item.0) (take n (by_last_access d))
          ≡ k ∷ ks)
        × (Dict.contains k d ≡ true)
  unfolding sort_by
  victims [] n some_there positive = absurd (omega arith)
  victims (x ∷ d) zero some_there positive = absurd (omega arith)
  victims (x ∷ d) (suc n) some_there positive =
      let (y, ys, e) = insert_sorted-some used_before x (sort_by used_before d) in
      let own =
        All-sort_by used_before (λ item. Dict.contains item.0 (x ∷ d) ≡ true) (x ∷ d)
          (All-own_keys (x ∷ d)) in
      let own' : All (λ item. Dict.contains item.0 (x ∷ d) ≡ true) (y ∷ ys) = rw e at own in
      (y.0, map (λ item. item.0) (take n ys), rw e refl, own'.0)

  -- An eviction makes the cache smaller.
  length-evict_oldest :
      (c : LinkCache V)
      → IsDict c.links
      → 0 < length c.links
      → length (evict_oldest c).links < length c.links
  unfolding evict_oldest remove_keys
  length-evict_oldest c u some_there =
      let (k, ks, e, there) =
        victims c.links (max 1 (length c.links / 10)) some_there (ground arith) in
      rw e (
        omega (
          arith,
          length-remove_keys-le ks (Dict.remove k c.links),
          rw there at (length-remove k c.links u),
        ))

  IsDict-evict_oldest : (c : LinkCache V) → IsDict c.links → IsDict (evict_oldest c).links
  unfolding evict_oldest
  IsDict-evict_oldest c u =
      IsDict-remove_keys
        (map (λ item. item.0) (take (max 1 (length c.links / 10)) (by_last_access c.links))) c.links
        u

  pub cleaned_lem :
      (now : ℕ) (c : LinkCache V)
      → IsDict c.links
      → IsDict (cleanup_links now c).links × (length (cleanup_links now c).links ≤ length c.links)
  unfolding cleanup_links
  cleaned_lem now c u = (
    IsDict-keep (λ item. not (link_expired now item.1)) c.links u,
    length-keep-le (λ item. not (link_expired now item.1)) c.links,
  )

  -- After it there is room for a link.
  pub room_for_link-room :
      (now : ℕ) (c : LinkCache V)
      → IsBounded c
      → IsDict (room_for_link now c).links × (length (room_for_link now c).links < c.max_size)
  unfolding room_for_link
  room_for_link-room now c h = elim (Bool-cases (leb c.max_size (length c.links))) [
    | inr roomy ↦ rw roomy (h.distinct, ground arith)
    | inl full ↦
        let same : (cleanup_links now c).max_size ≡ c.max_size = unfold cleanup_links in refl in
        let (distinct, le) = cleaned_lem now c h.distinct in
        elim (Bool-cases
          (leb (cleanup_links now c).max_size (length (cleanup_links now c).links))) [
            | inr enough ↦ simp (full, enough) (distinct, ground (arith, same))
            | inl still ↦
                let some_there : 0 < length (cleanup_links now c).links =
                  ground (arith, same, h.positive) in
                let less = length-evict_oldest (cleanup_links now c) distinct some_there in
                simp (full, still)
                  (
                    IsDict-evict_oldest (cleanup_links now c) distinct,
                    omega (arith, less, le, h.bounded),
                  )
          ]
  ]
