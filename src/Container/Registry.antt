-- ===== src/Container/Registry.antt =====
-- `ServiceDescriptor` and `ServiceContainer` of app/core/service_container.py. A type is a text that
-- identifies it, an object a number: the n-th object that is constructed is n. A descriptor is shared
-- by the types that it is registered for, so it stands in a store of its own.
use xzcccc_smart_media.Base.{
  ℕ, ◌+◌, [], Bool, true, false, ◌==◌, if◌then◌else◌, String, str_eq, Option, none, some,
}
use xzcccc_smart_media.Dict
use xzcccc_smart_media.Dict.{Dict}

pub data ServiceLifetime : Type 0 where
  singleton : ServiceLifetime
  transient : ServiceLifetime
  scoped : ServiceLifetime

-- `implementation`: a class, or another object, which is handed out as it is, a function too.
pub data Implementation : Type 0 where
  a_class : String → Implementation
  an_object : ℕ → Implementation

pub record ServiceDescriptor : Type 0 where
  pub implementation : Implementation
  pub lifetime : ServiceLifetime
  pub has_factory : Bool
  pub descriptor_instance : Option ℕ

pub record ServiceContainer : Type 0 where
  pub services : Dict ℕ
  pub descriptors : ℕ → ServiceDescriptor
  pub next_descriptor : ℕ
  pub instances : Dict ℕ
  pub overrides : Dict ℕ
  pub next_object : ℕ
  pub started : Bool
  pub stopped : Bool

abbrev pub set_descriptor : ℕ → ServiceDescriptor → (ℕ → ServiceDescriptor) → ℕ → ServiceDescriptor
set_descriptor i d descriptors j = if i == j then d else descriptors j

-- The descriptor of a registration is entered for the type, and for another class that implements it.
abbrev pub enter : String → Implementation → ℕ → Dict ℕ → Dict ℕ
enter service_type (a_class impl) i services =
    let entered = Dict.put service_type i services in
    if str_eq impl service_type then entered else Dict.put impl i entered
enter service_type (an_object o) i services = Dict.put service_type i services

-- `implementation or service_type`
abbrev pub implementation_or : String → Option Implementation → Implementation
implementation_or service_type none = a_class service_type
implementation_or service_type (some impl) = impl

unfoldable pub register :
    String → Option Implementation → ServiceLifetime → Bool → ServiceContainer → ServiceContainer
register service_type implementation lifetime factory c =
    let impl = implementation_or service_type implementation in
    let descriptor : ServiceDescriptor = record {
      implementation = impl;
      lifetime = lifetime;
      has_factory = factory;
      descriptor_instance = none;
    } in
    record c {
      services = enter service_type impl c.next_descriptor c.services;
      descriptors = set_descriptor c.next_descriptor descriptor c.descriptors;
      next_descriptor = c.next_descriptor + 1;
    }

unfoldable pub add_instance : String → ℕ → ServiceContainer → ServiceContainer
add_instance service_type instance_id c =
    let descriptor : ServiceDescriptor = record {
      implementation = an_object instance_id;
      lifetime = singleton;
      has_factory = false;
      descriptor_instance = none;
    } in
    record c {
      instances = Dict.put service_type instance_id c.instances;
      services = Dict.put service_type c.next_descriptor c.services;
      descriptors = set_descriptor c.next_descriptor descriptor c.descriptors;
      next_descriptor = c.next_descriptor + 1;
    }

unfoldable pub override : String → ℕ → ServiceContainer → ServiceContainer
override service_type instance_id c = record c {
  overrides = Dict.put service_type instance_id c.overrides;
}

unfoldable pub clear_override : String → ServiceContainer → ServiceContainer
clear_override service_type c = record c { overrides = Dict.remove service_type c.overrides }

unfoldable pub clear_all_overrides : ServiceContainer → ServiceContainer
clear_all_overrides c = record c { overrides = [] }

-- What `get` comes to: an object, KeyError, or the exception of a constructor or factory.
pub data Resolved : Type 0 where
  got : ℕ → Resolved
  not_registered : Resolved
  build_failed : Resolved

abbrev pub is_singleton : ServiceLifetime → Bool
is_singleton singleton = true
is_singleton _ = false

-- `self._instances.setdefault(service_type, …)`
abbrev pub set_default : String → ℕ → Dict ℕ → Dict ℕ
set_default service_type o instances =
    if Dict.contains service_type instances then instances else Dict.put service_type o instances

-- A descriptor that keeps its object, and the type's entry for it.
abbrev pub keep_instance : ℕ → String → ℕ → ServiceContainer → ServiceContainer
keep_instance i service_type o c = record c {
  descriptors =
      set_descriptor i (record (c.descriptors i) { descriptor_instance = some o }) c.descriptors;
  instances = Dict.put service_type o c.instances;
}

-- Whether the n-th construction goes through.
module _ (succeeds : ℕ → Bool) where
  unfoldable pub construct : ServiceContainer → ServiceContainer × Option ℕ
  construct c = (
    record c { next_object = c.next_object + 1 },
    if succeeds c.next_object then some c.next_object else none,
  )

  -- `_build_instance`
  unfoldable pub build_instance : ServiceDescriptor → ServiceContainer → ServiceContainer × Option ℕ
  build_instance d c =
      if d.has_factory
      then construct c
      else elim d.implementation [ an_object o ↦ (c, some o) | a_class impl ↦ construct c ]

  -- `_create_instance` for a singleton that has no object yet
  unfoldable pub create_singleton : ℕ → String → ServiceContainer → ServiceContainer × Resolved
  create_singleton i service_type c =
      let (c', built) = build_instance (c.descriptors i) c in
      elim built [ none ↦ (c', build_failed) | some o ↦ (keep_instance i service_type o c', got o) ]

  unfoldable pub create_instance : ℕ → String → ServiceContainer → ServiceContainer × Resolved
  create_instance i service_type c =
      let d = c.descriptors i in
      if is_singleton d.lifetime
      then elim d.descriptor_instance [
        | some o ↦ (record c { instances = set_default service_type o c.instances }, got o)
        | none ↦ create_singleton i service_type c
      ]
      else (let (c', built) = build_instance d c in
          elim built [ none ↦ (c', build_failed) | some o ↦ (c', got o) ])

  unfoldable pub get_service : String → ServiceContainer → ServiceContainer × Resolved
  get_service service_type c = elim (Dict.get service_type c.overrides) [
    | some o ↦ (c, got o)
    | none ↦ elim (Dict.get service_type c.instances) [
      | some o ↦ (c, got o)
      | none ↦ elim (Dict.get service_type c.services) [
        | none ↦ (c, not_registered)
        | some i ↦ create_instance i service_type c
      ]
    ]
  ]
