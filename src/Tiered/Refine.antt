-- ===== src/Tiered/Refine.antt =====
-- What the cache of several levels promises over any levels that keep their promise: it is a
-- dictionary that may forget.
use xzcccc_smart_media.Base.{
  ℕ, ◌≡◌, refl, sym, [], true, false, ◌||◌, if◌then◌else◌, String, str_eq, Option, none, some,
  is_some, arith, Bool-cases, Option-cases, inl, inr, eq_iff,
}
use xzcccc_smart_media.Dict
use xzcccc_smart_media.Dict.{Dict, get-put, get-remove}
use xzcccc_smart_media.Tiered.Level.{Level, IsLevel}
use xzcccc_smart_media.Tiered.Cache.{
  TieredCache, Found, fetched, raised, level_get, level_set, try_set, level_delete, level_clear,
  fill_l1, fill_l2, get, look_l2, look_l3, set, apply_write, drain_queue, drain, delete, clear,
}

module _ {S V : Type 0} (o : Level S V) (l : IsLevel S V o) where
  -- A level that is switched on holds only what the dictionary has.
  abbrev pub Shows : Dict V → Option S → Type 0
  Shows m none = Unit {0}
  Shows m (some s) = l.IsGood s × ((k : String) (v : V) → l.Holds k v s → Dict.get k m ≡ some v)

  pub Shows-level_get :
      (now : ℕ) (k : String) (m : Dict V) (level : Option S)
      → Shows m level
      → Shows m (level_get o now k level).0
        × ((v : V) → (level_get o now k level).1 ≡ some v → Dict.get k m ≡ some v)
  unfolding level_get
  Shows-level_get now k m none h = (tt, λ v e. absurd (ground arith))
  Shows-level_get now k m (some s) (good, sound) = (
    (l.get_good now k s good, λ j v there. sound j v (l.get_keeps now k j s v there)),
    λ v e. sound k v (l.get_sound now k s v e),
  )

  -- A write, where the second dictionary is the first with that write.
  pub Shows-level_set :
      (now : ℕ) (k : String) (w : V) (ttl : Option ℕ) (m m' : Dict V)
      → ((j : String) → Dict.get j m' ≡ (if str_eq k j then some w else Dict.get j m))
      → (level : Option S) → Shows m level
      → (level' : Option S) × (level_set o now k w ttl level ≡ some level') × Shows m' level'
  unfolding level_set
  Shows-level_set now k w ttl m m' after none h = (none, refl, tt)
  Shows-level_set now k w ttl m m' after (some s) (good, sound) =
      let (s', e, good', keeps, self) = l.set_lem now k w ttl s good in
      (
        some s',
        rw (e, level_set) refl,
        (
          good',
          λ j v there. elim (Bool-cases (str_eq k j)) [
            | inl same ↦
                let held : v ≡ w = rw same at (keeps j v there) in rw (after j, same, held) refl
            | inr other ↦
                let held : l.Holds j v s = rw other at (keeps j v there) in
                rw (after j, other) (sound j v held)
          ],
        ),
      )

  Shows-try_set :
      (now : ℕ) (k : String) (w : V) (ttl : Option ℕ) (m : Dict V) (level : Option S)
      → Shows m level
      → Shows (Dict.put k w m) (try_set o now k w ttl level).0
  unfolding try_set
  Shows-try_set now k w ttl m level h =
      let (level', e, h') =
        Shows-level_set now k w ttl m (Dict.put k w m) (λ j. get-put k j w m) level h in
      rw (e, try_set) h'

  -- A level that is switched off holds nothing.
  Shows-off : (m : Dict V) (level : Option S) → is_some level ≡ false → Shows m level
  Shows-off m none h = tt
  Shows-off m (some s) h = absurd (ground arith)

  Shows-level_delete :
      (k : String) (m : Dict V) (level : Option S)
      → Shows m level
      → Shows (Dict.remove k m) (level_delete o k level).0
  unfolding level_delete
  Shows-level_delete k m none h = tt
  Shows-level_delete k m (some s) (good, sound) = (
    l.delete_good k s good,
    λ j v there.
        let (other, held) = l.delete_sound k j s v good there in
        rw (get-remove k j m, other) (sound j v held),
  )

  Shows-level_clear :
      (m : Dict V) (level : Option S) → Shows m level → Shows [] (level_clear o level).0
  unfolding level_clear
  Shows-level_clear m none h = tt
  Shows-level_clear m (some s) (good, sound) =
      (l.clear_good s good, λ j v there. absurd (l.clear_sound j s v there))

-- The answer of a look-up is nothing, or what the dictionary has.
abbrev pub Allowed : {V : Type 0} → Dict V → String → Found V → Type 0
Allowed m k raised = ⊥
Allowed m k (fetched none) = Unit {0}
Allowed m k (fetched (some v)) = Dict.get k m ≡ some v

module _ {S1 S2 S3 V : Type 0} (o1 : Level S1 V) (o2 : Level S2 V) (o3 : Level S3 V)
    (l1 : IsLevel S1 V o1) (l2 : IsLevel S2 V o2) (l3 : IsLevel S3 V o3) where
  -- Every level holds only what the dictionary has, and no write waits.
  abbrev pub IsCoherent : Dict V → TieredCache S1 S2 S3 V → Type 0
  IsCoherent m c =
      Shows o1 l1 m c.l1 × Shows o2 l2 m c.l2 × Shows o3 l3 m c.l3 × (c.write_queue ≡ [])

  pub same_write :
      (k : String) (v : V) (m : Dict V)
      → Dict.get k m ≡ some v
      → (j : String) → Dict.get j m ≡ (if str_eq k j then some v else Dict.get j m)
  same_write k v m e j = elim (Bool-cases (str_eq k j)) [
    | inl same ↦ let p : k ≡ j = (eq_iff k j).0 same in rw (same, sym p) e
    | inr other ↦ rw other refl
  ]

  look_l3-IsCoherent :
      (now : ℕ) (k : String) (m : Dict V) (c : TieredCache S1 S2 S3 V)
      → IsCoherent m c
      → IsCoherent m (look_l3 o1 o2 o3 now k c).0 × Allowed m k (look_l3 o1 o2 o3 now k c).1
  unfolding look_l3 fill_l1 fill_l2
  look_l3-IsCoherent now k m c (h1, h2, h3, q) =
      let (kept, sound) = Shows-level_get o3 l3 now k m c.l3 h3 in
      elim (Option-cases (level_get o3 now k c.l3).1) [
        | inl miss ↦ rw (miss, look_l3) ((h1, h2, kept, q), tt)
        | inr (v, hit) ↦
            let write = same_write k v m (sound v hit) in
            let (c1, e1, s1) = Shows-level_set o1 l1 now k v none m m write c.l1 h1 in
            let (c2, e2, s2) = Shows-level_set o2 l2 now k v none m m write c.l2 h2 in
            rw (hit, look_l3) (rw (e1, fill_l1) (rw (e2, fill_l2) ((s1, s2, kept, q), sound v hit)))
      ]

  look_l2-IsCoherent :
      (now : ℕ) (k : String) (m : Dict V) (c : TieredCache S1 S2 S3 V)
      → IsCoherent m c
      → IsCoherent m (look_l2 o1 o2 o3 now k c).0 × Allowed m k (look_l2 o1 o2 o3 now k c).1
  unfolding look_l2 fill_l1
  look_l2-IsCoherent now k m c (h1, h2, h3, q) =
      let (kept, sound) = Shows-level_get o2 l2 now k m c.l2 h2 in
      elim (Option-cases (level_get o2 now k c.l2).1) [
        | inl miss ↦
            rw (miss, look_l2)
              (look_l3-IsCoherent now k m (record c { l2 = (level_get o2 now k c.l2).0 })
                (h1, kept, h3, q))
        | inr (v, hit) ↦
            let (c1, e1, s1) =
              Shows-level_set o1 l1 now k v none m m (same_write k v m (sound v hit)) c.l1 h1 in
            rw (hit, look_l2) (rw (e1, fill_l1) ((s1, kept, h3, q), sound v hit))
      ]

  pub get-IsCoherent :
      (now : ℕ) (k : String) (m : Dict V) (c : TieredCache S1 S2 S3 V)
      → IsCoherent m c
      → IsCoherent m (get o1 o2 o3 now k c).0 × Allowed m k (get o1 o2 o3 now k c).1
  unfolding get
  get-IsCoherent now k m c (h1, h2, h3, q) =
      let (kept, sound) = Shows-level_get o1 l1 now k m c.l1 h1 in
      elim (Option-cases (level_get o1 now k c.l1).1) [
        | inl miss ↦
            rw (miss, get)
              (look_l2-IsCoherent now k m (record c { l1 = (level_get o1 now k c.l1).0 })
                (kept, h2, h3, q))
        | inr (v, hit) ↦ rw (hit, get) ((kept, h2, h3, q), sound v hit)
      ]

  pub set-IsCoherent :
      (now later : ℕ) (k : String) (v : V) (ttl : Option ℕ) (m : Dict V)
      (c : TieredCache S1 S2 S3 V)
      → IsCoherent m c
      → IsCoherent (Dict.put k v m) (drain o1 o2 o3 later (set o1 o2 o3 now k v ttl true c).0)
  unfolding set drain_queue apply_write
  set-IsCoherent now later k v ttl m c (h1, h2, h3, q) =
      let first = Shows-try_set o1 l1 now k v ttl m c.l1 h1 in
      elim (Bool-cases (is_some c.l2 || is_some c.l3)) [
        | inl there ↦
            simp (there, q)
              (
                first,
                Shows-try_set o2 l2 later k v ttl m c.l2 h2,
                Shows-try_set o3 l3 later k v ttl m c.l3 h3,
                refl,
              )
        | inr off ↦
            simp (off, q)
              (
                first,
                Shows-off o2 l2 (Dict.put k v m) c.l2 (ground arith),
                Shows-off o3 l3 (Dict.put k v m) c.l3 (ground arith),
                refl,
              )
      ]

  pub delete-IsCoherent :
      (k : String) (m : Dict V) (c : TieredCache S1 S2 S3 V)
      → IsCoherent m c
      → IsCoherent (Dict.remove k m) (delete o1 o2 o3 k c).0
  unfolding delete
  delete-IsCoherent k m c (h1, h2, h3, q) = (
    Shows-level_delete o1 l1 k m c.l1 h1,
    Shows-level_delete o2 l2 k m c.l2 h2,
    Shows-level_delete o3 l3 k m c.l3 h3,
    q,
  )

  pub clear-IsCoherent :
      (m : Dict V) (c : TieredCache S1 S2 S3 V)
      → IsCoherent m c
      → IsCoherent [] (clear o1 o2 o3 c).0
  unfolding clear
  clear-IsCoherent m c (h1, h2, h3, q) = (
    Shows-level_clear o1 l1 m c.l1 h1,
    Shows-level_clear o2 l2 m c.l2 h2,
    Shows-level_clear o3 l3 m c.l3 h3,
    q,
  )
