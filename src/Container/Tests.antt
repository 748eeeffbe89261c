-- ===== src/Container/Tests.antt =====
-- Runs of the container's code, and instances of its theorems.
use xzcccc_smart_media.Base.{
  ℕ, ◌≡◌, refl, [], ◌∷◌, List, map, Bool, true, false, ltb, String, none, some, keep,
}
use xzcccc_smart_media.Dict
use xzcccc_smart_media.LinkCache.Links.{insert_sorted, sort_by}
use xzcccc_smart_media.Container.Registry.{
  singleton, transient, a_class, ServiceContainer, register, override, clear_all_overrides, got,
  construct, build_instance, create_singleton, create_instance, get_service,
}
use xzcccc_smart_media.Container.Resolve.{
  ContainerCall, register_call, override_call, clear_all_call, get_call, call_container, run_calls,
  get_service-run_calls,
}
use xzcccc_smart_media.Container.Startup.{
  index_from, ordered_services, remaining_services, order_services, startup_order, reversed,
  start_each, start_services, stop_services,
}
use xzcccc_smart_media.Container.Lifecycle.{answers, stop_services-start_services}

abbrev blank : ServiceContainer
blank = record {
  services = [];
  descriptors = λ i. record {
    implementation = a_class "object";
    lifetime = transient;
    has_factory = false;
    descriptor_instance = none;
  };
  next_descriptor = 0;
  instances = [];
  overrides = [];
  next_object = 0;
  started = false;
  stopped = false;
}

abbrev always : ℕ → Bool
always n = true

abbrev own_name : String → String
own_name t = t

-- A service of its own class, and a cache that another class implements.
abbrev two_services : ServiceContainer
two_services =
    register "Cache" (some (a_class "CacheService")) singleton false
      (register "Other" none singleton false blank)

order_run : startup_order own_name two_services ≡ "CacheService" ∷ "Other" ∷ "Cache" ∷ []
unfolding register order_services index_from ordered_services remaining_services sort_by
    insert_sorted Dict.get Dict.put
order_run = refl

-- The class and the type that it implements are one object, which is started twice.
started_twice : (start_services always always always own_name two_services).1 ≡ 0 ∷ 1 ∷ 0 ∷ []
unfolding register order_services index_from ordered_services remaining_services sort_by
    insert_sorted Dict.get Dict.put start_services start_each get_service create_instance
    create_singleton build_instance construct
started_twice = refl

-- A registration after the first look-up has no effect.
abbrev later_calls : List ContainerCall
later_calls =
    register_call "Other" (some (a_class "Mock")) singleton true
    ∷ override_call "Other" 9
    ∷ get_call "Cache"
    ∷ clear_all_call
    ∷ []

get_service-run_calls_example :
    get_service always "Other"
      (run_calls always later_calls (get_service always "Other" two_services).0)
    ≡ (run_calls always later_calls (get_service always "Other" two_services).0, got 0)
unfolding register order_services Dict.get Dict.put Dict.remove call_container run_calls
    clear_all_overrides override get_service create_instance create_singleton build_instance
    construct
get_service-run_calls_example =
    get_service-run_calls always "Other" 0 0 two_services later_calls refl refl refl refl
      (refl, (refl, (refl, (refl, tt)))) refl

-- Only the second object has a method `stop`.
abbrev second_stops : ℕ → Bool
second_stops n = ltb 0 n

stop_services-start_services_example :
    (os : List ℕ) × (answers always
        (start_services always always always own_name two_services).0
        (startup_order own_name two_services)
      ≡ map got os)
    × ((start_services always always always own_name two_services).1 ≡ keep always os)
    × (stop_services always second_stops own_name
          (start_services always always always own_name two_services).0
        ≡ (
          record ((start_services always always always own_name two_services).0) { stopped = true },
          keep second_stops (reversed os),
        ))
unfolding register order_services index_from ordered_services remaining_services sort_by
    insert_sorted Dict.get Dict.put start_services start_each get_service create_instance
    create_singleton build_instance construct
stop_services-start_services_example =
    stop_services-start_services always always always second_stops own_name two_services refl refl
      ((refl, 0, refl, refl), ((refl, 1, refl, refl), ((refl, 1, refl, refl), tt))) refl
