-- ===== src/Tiered/Warmup.antt =====
-- `warmup` of app/services/tiered_cache.py, over a disk level with a bulk look-up.
use xzcccc_smart_media.Base.{
  ℕ, ◌+◌, ◌≡◌, refl, List, [], ◌∷◌, not, if◌then◌else◌, String, Option, none, some, is_some, keep,
  All, Bool-cases, Option-cases, inl, inr,
}
use xzcccc_smart_media.Dict
use xzcccc_smart_media.Dict.{Dict}
use xzcccc_smart_media.Tiered.Level.{Level, IsLevel}
use xzcccc_smart_media.Tiered.Cache.{TieredCache, level_get, fill_l1, fill_l2}
use xzcccc_smart_media.Tiered.Refine.{
  IsCoherent, Shows, Shows-level_get, Shows-level_set, same_write,
}

module _ {S1 S2 S3 V : Type 0} (o1 : Level S1 V) (o2 : Level S2 V) (o3 : Level S3 V)
    (get_many : ℕ → List String → S2 → S2 × Dict V) where
  -- What comes of the warm-up: the cache, and the number of keys, or none where a write raised.
  abbrev pub Warmed : Type 0
  Warmed = TieredCache S1 S2 S3 V × Option ℕ

  -- The values of the disk, written to memory.
  unfoldable pub warm_from_l2 : ℕ → Dict V → ℕ → TieredCache S1 S2 S3 V → Warmed
  warm_from_l2 now [] warmed c = (c, some warmed)
  warm_from_l2 now ((key, value) ∷ items) warmed c = elim (fill_l1 o1 o2 o3 now key value c) [
    | none ↦ (c, none)
    | some c' ↦ warm_from_l2 now items (warmed + 1) c'
  ]

  -- The keys that the disk did not have, from the third level.
  unfoldable pub warm_from_l3 : ℕ → List String → ℕ → TieredCache S1 S2 S3 V → Warmed
  warm_from_l3 now [] warmed c = (c, some warmed)
  warm_from_l3 now (key ∷ keys) warmed c =
      let (l3, value) = level_get o3 now key c.l3 in
      let c' = record c { l3 = l3 } in
      elim value [
        | none ↦ warm_from_l3 now keys warmed c'
        | some v ↦ elim (fill_l1 o1 o2 o3 now key v c') [
          | none ↦ (c', none)
          | some c1 ↦ elim (fill_l2 o1 o2 o3 now key v c1) [
            | none ↦ (c1, none)
            | some c2 ↦ warm_from_l3 now keys (warmed + 1) c2
          ]
        ]
      ]

  abbrev pub many_of_level : ℕ → List String → Option S2 → Option S2 × Dict V
  many_of_level now keys none = (none, [])
  many_of_level now keys (some s) = let (s', found) = get_many now keys s in (some s', found)

  unfoldable pub warmup : ℕ → List String → TieredCache S1 S2 S3 V → Warmed
  warmup now [] c = (c, some 0)
  warmup now (key ∷ keys) c =
      let (l2, l2_values) = many_of_level now (key ∷ keys) c.l2 in
      let (c', warmed) = warm_from_l2 now l2_values 0 (record c { l2 = l2 }) in
      let remaining_keys = keep (λ k. not (Dict.contains k l2_values)) (key ∷ keys) in
      if not (is_some c.l1)
      then (c, some 0)
      else elim warmed [ none ↦ (c', none) | some n ↦ warm_from_l3 now remaining_keys n c' ]

-- The bulk look-up of a level gives what the level holds, and leaves it so.
abbrev pub IsBulk :
    {S V : Type 0} (o : Level S V) → IsLevel S V o → (ℕ → List String → S → S × Dict V) → Type 0
IsBulk {S} {V} o l get_many =
    (now : ℕ) (keys : List String) (s : S)
    → l.IsGood s
    → l.IsGood (get_many now keys s).0
      × ((j : String) (v : V) → l.Holds j v (get_many now keys s).0 → l.Holds j v s)
      × All (λ item. l.Holds item.0 item.1 s) (get_many now keys s).1

module _ {S1 S2 S3 V : Type 0} (o1 : Level S1 V) (o2 : Level S2 V) (o3 : Level S3 V)
    (l1 : IsLevel S1 V o1) (l2 : IsLevel S2 V o2) (l3 : IsLevel S3 V o3)
    (get_many : ℕ → List String → S2 → S2 × Dict V) where
  warm_from_l2-IsCoherent :
      (now : ℕ) (items : Dict V) (n : ℕ) (m : Dict V) (c : TieredCache S1 S2 S3 V)
      → All (λ item. Dict.get item.0 m ≡ some item.1) items
      → IsCoherent o1 o2 o3 l1 l2 l3 m c
      → (n' : ℕ) × ((warm_from_l2 o1 o2 o3 get_many now items n c).1 ≡ some n')
        × IsCoherent o1 o2 o3 l1 l2 l3 m (warm_from_l2 o1 o2 o3 get_many now items n c).0
  unfolding warm_from_l2 fill_l1
  warm_from_l2-IsCoherent now [] n m c h coherent = (n, refl, coherent)
  warm_from_l2-IsCoherent now ((k, v) ∷ items) n m c (e, h) (h1, h2, h3, q) =
      let write = same_write o1 o2 o3 l1 l2 l3 k v m e in
      let (c1, e1, s1) = Shows-level_set o1 l1 now k v none m m write c.l1 h1 in
      rw (e1, warm_from_l2, fill_l1)
        (warm_from_l2-IsCoherent now items (n + 1) m (record c { l1 = c1 }) h (s1, h2, h3, q))

  warm_from_l3-IsCoherent :
      (now : ℕ) (keys : List String) (n : ℕ) (m : Dict V) (c : TieredCache S1 S2 S3 V)
      → IsCoherent o1 o2 o3 l1 l2 l3 m c
      → (n' : ℕ) × ((warm_from_l3 o1 o2 o3 get_many now keys n c).1 ≡ some n')
        × IsCoherent o1 o2 o3 l1 l2 l3 m (warm_from_l3 o1 o2 o3 get_many now keys n c).0
  unfolding warm_from_l3 fill_l1 fill_l2
  warm_from_l3-IsCoherent now [] n m c coherent = (n, refl, coherent)
  warm_from_l3-IsCoherent now (k ∷ keys) n m c (h1, h2, h3, q) =
      let (kept, sound) = Shows-level_get o3 l3 now k m c.l3 h3 in
      elim (Option-cases (level_get o3 now k c.l3).1) [
        | inl miss ↦
            rw (miss, warm_from_l3)
              (warm_from_l3-IsCoherent now keys n m (record c { l3 = (level_get o3 now k c.l3).0 })
                (h1, h2, kept, q))
        | inr (v, hit) ↦
            let write = same_write o1 o2 o3 l1 l2 l3 k v m (sound v hit) in
            let (c1, e1, s1) = Shows-level_set o1 l1 now k v none m m write c.l1 h1 in
            let (c2, e2, s2) = Shows-level_set o2 l2 now k v none m m write c.l2 h2 in
            rw (hit, warm_from_l3)
              (rw (e1, fill_l1)
                (rw (e2, fill_l2)
                  (warm_from_l3-IsCoherent now keys (n + 1) m
                    (record c { l1 = c1; l2 = c2; l3 = (level_get o3 now k c.l3).0 })
                    (s1, s2, kept, q))))
      ]

  held-All :
      (m : Dict V) (s : S2) (items : Dict V)
      → ((k : String) (v : V) → l2.Holds k v s → Dict.get k m ≡ some v)
      → All (λ item. l2.Holds item.0 item.1 s) items
      → All (λ item. Dict.get item.0 m ≡ some item.1) items
  held-All m s [] sound h = tt
  held-All m s ((k, v) ∷ items) sound (here, h) = (sound k v here, held-All m s items sound h)

  many_of_level-Shows :
      (now : ℕ) (keys : List String) (m : Dict V) (level : Option S2)
      → IsBulk o2 l2 get_many
      → Shows o2 l2 m level
      → Shows o2 l2 m (many_of_level o1 o2 o3 get_many now keys level).0
        × All
            (λ item. Dict.get item.0 m ≡ some item.1)
            (many_of_level o1 o2 o3 get_many now keys level).1
  many_of_level-Shows now keys m none bulk h = (tt, tt)
  many_of_level-Shows now keys m (some s) bulk (good, sound) =
      let (good', keeps, found) = bulk now keys s good in
      (
        (good', λ j v there. sound j v (keeps j v there)),
        held-All m s (get_many now keys s).1 sound found,
      )

  -- With a bulk look-up that gives what the disk holds, a warm-up raises nothing, and the levels hold
  -- only what the dictionary has, as before.
  pub warmup-IsCoherent :
      (now : ℕ) (keys : List String) (m : Dict V) (c : TieredCache S1 S2 S3 V)
      → IsBulk o2 l2 get_many
      → IsCoherent o1 o2 o3 l1 l2 l3 m c
      → (n : ℕ) × ((warmup o1 o2 o3 get_many now keys c).1 ≡ some n)
        × IsCoherent o1 o2 o3 l1 l2 l3 m (warmup o1 o2 o3 get_many now keys c).0
  unfolding warmup
  warmup-IsCoherent now [] m c bulk coherent = (0, refl, coherent)
  warmup-IsCoherent now (key ∷ keys) m c bulk (h1, h2, h3, q) =
      let many = many_of_level o1 o2 o3 get_many now (key ∷ keys) c.l2 in
      let (s2, found) = many_of_level-Shows now (key ∷ keys) m c.l2 bulk h2 in
      let (n, e, coherent) =
        warm_from_l2-IsCoherent now many.1 0 m (record c { l2 = many.0 }) found (h1, s2, h3, q) in
      let c' = (warm_from_l2 o1 o2 o3 get_many now many.1 0 (record c { l2 = many.0 })).0 in
      let rest =
        warm_from_l3-IsCoherent now (keep (λ k. not (Dict.contains k many.1)) (key ∷ keys)) n m c'
          coherent in
      elim (Bool-cases (is_some c.l1)) [
        | inr off ↦ simp off (0, refl, (h1, h2, h3, q))
        | inl on ↦ simp (on, e) rest
      ]
