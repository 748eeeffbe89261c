-- ===== src/Container/Resolve.antt =====
-- Which object a service stands for, over all runs.
use xzcccc_smart_media.Base.{
  ℕ, ◌≡◌, refl, [], ◌∷◌, List, Bool, true, false, String, str_eq, eq_iff, Option, none, some, All,
  arith, Bool-cases, Option-cases, inl, inr,
}
use xzcccc_smart_media.Dict
use xzcccc_smart_media.Dict.{Dict, get-put}
use xzcccc_smart_media.Container.Registry.{
  ServiceLifetime, Implementation, a_class, an_object, ServiceDescriptor, ServiceContainer,
  register, add_instance, override, clear_override, clear_all_overrides, got, is_singleton,
  construct, build_instance, create_singleton, create_instance, get_service,
}

pub data ContainerCall : Type 0 where
  register_call : String → Option Implementation → ServiceLifetime → Bool → ContainerCall
  add_instance_call : String → ℕ → ContainerCall
  override_call : String → ℕ → ContainerCall
  clear_override_call : String → ContainerCall
  clear_all_call : ContainerCall
  get_call : String → ContainerCall

-- A call that puts an object in for the type.
abbrev pub replaces : String → ContainerCall → Bool
replaces t (add_instance_call u o) = str_eq u t
replaces t (register_call u impl lifetime factory) = false
replaces t (override_call u o) = false
replaces t (clear_override_call u) = false
replaces t clear_all_call = false
replaces t (get_call u) = false

module _ (succeeds : ℕ → Bool) where
  unfoldable pub call_container : ContainerCall → ServiceContainer → ServiceContainer
  call_container (register_call t impl lifetime factory) c = register t impl lifetime factory c
  call_container (add_instance_call t o) c = add_instance t o c
  call_container (override_call t o) c = override t o c
  call_container (clear_override_call t) c = clear_override t c
  call_container clear_all_call c = clear_all_overrides c
  call_container (get_call t) c = (get_service succeeds t c).0

  unfoldable pub run_calls : List ContainerCall → ServiceContainer → ServiceContainer
  run_calls [] c = c
  run_calls (x ∷ calls) c = run_calls calls (call_container x c)

  build_instance-instances :
      (d : ServiceDescriptor) (c : ServiceContainer)
      → (build_instance succeeds d c).0.instances ≡ c.instances
  unfolding build_instance construct
  build_instance-instances d c = elim (Bool-cases d.has_factory) [
    | inl made ↦ simp made refl
    | inr plain ↦ simp plain (by_implementation d.implementation)
  ]
    where
      by_implementation :
          (impl : Implementation)
          → (elim impl as (λ x. ServiceContainer × Option ℕ) [
            | an_object o ↦ (c, some o)
            | a_class name ↦ construct succeeds c
          ]).0.instances
            ≡ c.instances
      by_implementation (an_object o) = refl
      by_implementation (a_class name) = refl

  -- A look-up of any type keeps the object that a type has.
  pub get_service-keeps :
      (t u : String) (o : ℕ) (c : ServiceContainer)
      → Dict.get t c.instances ≡ some o
      → Dict.get t (get_service succeeds u c).0.instances ≡ some o
  unfolding get_service create_instance create_singleton
  get_service-keeps t u o c kept = elim (Option-cases (Dict.get u c.overrides)) [
    | inr (p, over) ↦ rw (over, get_service) kept
    | inl plain ↦ elim (Option-cases (Dict.get u c.instances)) [
      | inr (p, here) ↦ rw (plain, get_service) (rw here kept)
      | inl absent ↦ elim (Option-cases (Dict.get u c.services)) [
        | inl unknown ↦ rw (plain, get_service) (rw absent (rw unknown kept))
        | inr (i, known) ↦ rw (plain, get_service) (rw absent (rw known (created i absent)))
      ]
    ]
  ]
    where
      other : Dict.get u c.instances ≡ none → str_eq u t ≡ false
      other absent = ground (arith, eq_iff u t)

      put_keeps :
          (d : Dict ℕ) (p : ℕ)
          → d ≡ c.instances
          → Dict.get u c.instances ≡ none
          → Dict.get t (Dict.put u p d) ≡ some o
      put_keeps d p e absent = rw e (ground (arith, get-put u t p c.instances, other absent))

      created :
          (i : ℕ)
          → Dict.get u c.instances ≡ none
          → Dict.get t (create_instance succeeds i u c).0.instances ≡ some o
      created i absent =
          let same = build_instance-instances (c.descriptors i) c in
          elim (Bool-cases (is_singleton (c.descriptors i).lifetime)) [
            | inl one ↦ elim (Option-cases (c.descriptors i).descriptor_instance) [
              | inr (p, stored) ↦ ground (arith, one, stored, put_keeps c.instances p refl absent)
              | inl fresh ↦ elim (Option-cases (build_instance succeeds (c.descriptors i) c).1) [
                | inl failed ↦ ground (arith, one, fresh, failed, same)
                | inr (p, built) ↦ ground (arith, one, fresh, built, put_keeps _ p same absent)
              ]
            ]
            | inr many ↦ elim (Option-cases (build_instance succeeds (c.descriptors i) c).1) [
              | inl failed ↦ ground (arith, many, failed, same)
              | inr (p, built) ↦ ground (arith, many, built, same)
            ]
          ]

  call_container-keeps :
      (t : String) (o : ℕ) (x : ContainerCall) (c : ServiceContainer)
      → replaces t x ≡ false
      → Dict.get t c.instances ≡ some o
      → Dict.get t (call_container x c).instances ≡ some o
  unfolding call_container register add_instance override clear_override clear_all_overrides
  call_container-keeps t o (register_call u impl lifetime factory) c same kept = kept
  call_container-keeps t o (add_instance_call u p) c same kept =
      ground (arith, get-put u t p c.instances)
  call_container-keeps t o (override_call u p) c same kept = kept
  call_container-keeps t o (clear_override_call u) c same kept = kept
  call_container-keeps t o clear_all_call c same kept = kept
  call_container-keeps t o (get_call u) c same kept = get_service-keeps t u o c kept

  run_calls-keeps :
      (t : String) (o : ℕ) (calls : List ContainerCall) (c : ServiceContainer)
      → All (λ x. replaces t x ≡ false) calls
      → Dict.get t c.instances ≡ some o
      → Dict.get t (run_calls calls c).instances ≡ some o
  unfolding run_calls
  run_calls-keeps t o [] c same kept = kept
  run_calls-keeps t o (x ∷ calls) c (same, rest) kept =
      run_calls-keeps t o calls (call_container x c) rest (call_container-keeps t o x c same kept)

  -- A type with an object and without an override is answered by the object.
  pub get_service-known :
      (t : String) (o : ℕ) (c : ServiceContainer)
      → Dict.get t c.overrides ≡ none
      → Dict.get t c.instances ≡ some o
      → get_service succeeds t c ≡ (c, got o)
  unfolding get_service
  get_service-known t o c plain kept = rw (plain, get_service) (rw kept refl)

  -- What a descriptor of a singleton answers with is kept for the type.
  create_instance-holds :
      (t : String) (o i : ℕ) (c : ServiceContainer)
      → is_singleton (c.descriptors i).lifetime ≡ true
      → Dict.get t c.instances ≡ none
      → (create_instance succeeds i t c).1 ≡ got o
      → Dict.get t (create_instance succeeds i t c).0.instances ≡ some o
  unfolding create_instance create_singleton
  create_instance-holds t o i c one absent answer =
      elim (Option-cases (c.descriptors i).descriptor_instance) [
        | inr (p, stored) ↦
            ground (arith, one, stored, absent, answer, get-put t t p c.instances, eq_iff t t)
        | inl fresh ↦ elim (Option-cases (build_instance succeeds (c.descriptors i) c).1) [
          | inl failed ↦ ground (arith, one, fresh, failed, answer)
          | inr (p, built) ↦ ground (
            arith,
            one,
            fresh,
            built,
            answer,
            get-put t t p (build_instance succeeds (c.descriptors i) c).0.instances,
            eq_iff t t,
          )
        ]
      ]

  pub get_service-holds :
      (t : String) (o i : ℕ) (c : ServiceContainer)
      → Dict.get t c.overrides ≡ none
      → Dict.get t c.services ≡ some i
      → is_singleton (c.descriptors i).lifetime ≡ true
      → (get_service succeeds t c).1 ≡ got o
      → Dict.get t (get_service succeeds t c).0.instances ≡ some o
  unfolding get_service
  get_service-holds t o i c plain known one = elim (Option-cases (Dict.get t c.instances)) [
    | inr (p, here) ↦ rw (plain, get_service) (rw here (λ answer. rw here (ground (arith, answer))))
    | inl absent ↦
        rw (plain, get_service) (rw absent (rw known (create_instance-holds t o i c one absent)))
  ]

  -- When the look-up of a registered singleton that is not overridden answers with an object, then every
  -- later look-up of the type answers with the same object and changes nothing, whatever calls come
  -- between, new registrations of the type included, as long as no `add_instance` of the type is among
  -- them and the type is not overridden at the end.
  pub get_service-run_calls :
      (t : String) (o i : ℕ) (c : ServiceContainer) (calls : List ContainerCall)
      → Dict.get t c.overrides ≡ none
      → Dict.get t c.services ≡ some i
      → is_singleton (c.descriptors i).lifetime ≡ true
      → (get_service succeeds t c).1 ≡ got o
      → All (λ x. replaces t x ≡ false) calls
      → Dict.get t (run_calls calls (get_service succeeds t c).0).overrides ≡ none
      → get_service succeeds t (run_calls calls (get_service succeeds t c).0)
        ≡ (run_calls calls (get_service succeeds t c).0, got o)
  get_service-run_calls t o i c calls plain known one answer same later =
      get_service-known t o _ later
        (run_calls-keeps t o calls _ same (get_service-holds t o i c plain known one answer))
