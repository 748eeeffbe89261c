-- ===== src/Container/Same.antt =====
-- What a look-up leaves alone.
use xzcccc_smart_media.Base.{
  ℕ, ◌+◌, ◌≡◌, refl, Bool, true, false, if◌then◌else◌, String, Option, none, some, arith,
  Bool-cases, Option-cases, inl, inr,
}
use xzcccc_smart_media.Dict
use xzcccc_smart_media.Container.Registry.{
  Implementation, a_class, an_object, ServiceDescriptor, ServiceContainer, is_singleton, construct,
  build_instance, create_singleton, create_instance, get_service,
}

-- What a look-up leaves alone.
abbrev pub Same : ServiceContainer → ServiceContainer → Type 0
Same c c' =
    (c'.overrides ≡ c.overrides)
    × (c'.services ≡ c.services)
    × (c'.started ≡ c.started)
    × (c'.stopped ≡ c.stopped)
    × ((i : ℕ) → (c'.descriptors i).lifetime ≡ (c.descriptors i).lifetime)

-- A registered singleton that is not overridden.
abbrev pub Shared : ServiceContainer → String → Type 0
Shared c t =
    (Dict.get t c.overrides ≡ none)
    × (i : ℕ) × (Dict.get t c.services ≡ some i)
    × (is_singleton (c.descriptors i).lifetime ≡ true)

pub Same-trans : (a b c : ServiceContainer) → Same a b → Same b c → Same a c
Same-trans a b c (o, s, st, sp, l) (o', s', st', sp', l') =
    (cc, cc, cc, cc, λ i. ground (arith, l i, l' i))

pub Shared-Same : (a b : ServiceContainer) (t : String) → Same a b → Shared a t → Shared b t
Shared-Same a b t (o, s, st, sp, l) (plain, i, known, one) =
    (rw o plain, i, rw s known, rw (l i) one)

module _ (succeeds : ℕ → Bool) where
  build_instance-only :
      (d : ServiceDescriptor) (c : ServiceContainer)
      → (n : ℕ) × ((build_instance succeeds d c).0 ≡ record c { next_object = n })
  unfolding build_instance construct
  build_instance-only d c = elim (Bool-cases d.has_factory) [
    | inl made ↦ (c.next_object + 1, simp made refl)
    | inr plain ↦ by_implementation d.implementation plain
  ]
    where
      by_implementation :
          (impl : Implementation)
          → d.has_factory ≡ false
          → (n : ℕ) × ((if d.has_factory
                then construct succeeds c
                else elim impl as (λ x. ServiceContainer × Option ℕ) [
                  | an_object o ↦ (c, some o)
                  | a_class name ↦ construct succeeds c
                ]).0
              ≡ record c { next_object = n })
      by_implementation (an_object o) plain = (c.next_object, simp plain refl)
      by_implementation (a_class name) plain = (c.next_object + 1, simp plain refl)

  create_instance-Same :
      (i : ℕ) (t : String) (c : ServiceContainer) → Same c (create_instance succeeds i t c).0
  unfolding create_instance create_singleton
  create_instance-Same i t c =
      let (n, e) = build_instance-only (c.descriptors i) c in
      elim (Bool-cases (is_singleton (c.descriptors i).lifetime)) [
        | inl one ↦ elim (Option-cases (c.descriptors i).descriptor_instance) [
          | inr (p, stored) ↦ ground (arith, one, stored)
          | inl fresh ↦ elim (Option-cases (build_instance succeeds (c.descriptors i) c).1) [
            | inl failed ↦ ground (arith, one, fresh, failed, e)
            | inr (p, built) ↦ ground (arith, one, fresh, built, e)
          ]
        ]
        | inr many ↦ elim (Option-cases (build_instance succeeds (c.descriptors i) c).1) [
          | inl failed ↦ ground (arith, many, failed, e)
          | inr (p, built) ↦ ground (arith, many, built, e)
        ]
      ]

  pub get_service-Same : (t : String) (c : ServiceContainer) → Same c (get_service succeeds t c).0
  unfolding get_service
  get_service-Same t c = elim (Option-cases (Dict.get t c.overrides)) [
    | inr (p, over) ↦ rw (over, get_service) itself
    | inl plain ↦ elim (Option-cases (Dict.get t c.instances)) [
      | inr (p, here) ↦ rw (plain, get_service) (rw here itself)
      | inl absent ↦ elim (Option-cases (Dict.get t c.services)) [
        | inl unknown ↦ rw (plain, get_service) (rw absent (rw unknown itself))
        | inr (i, known) ↦
            rw (plain, get_service) (rw absent (rw known (create_instance-Same i t c)))
      ]
    ]
  ]
    where
      itself : Same c c
      itself = (refl, refl, refl, refl, λ i. refl)
