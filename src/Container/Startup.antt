-- ===== src/Container/Startup.antt =====
-- `start_services`, `stop_services` and `_get_startup_order` of app/core/service_container.py.
use xzcccc_smart_media.Base.{
  ℕ, suc, [], ◌∷◌, List, ◌++◌, map, Bool, true, false, not, ltb, ◌&&◌, if◌then◌else◌, String,
  str_eq, Option, none, some,
}
use xzcccc_smart_media.LinkCache.Links.{sort_by}
use xzcccc_smart_media.Container.Registry.{
  ServiceContainer, got, not_registered, build_failed, get_service,
}

abbrev pub priority_order : List String
priority_order =
    "ConfigService" ∷ "CacheManager" ∷ "CacheService" ∷ "CacheServiceUnified" ∷ "CacheServiceLegacy"
    ∷ "LinkCache" ∷ "LinkCacheUnified" ∷ "LinkCacheLegacy" ∷ "CronService" ∷ "NotificationService"
    ∷ []

-- The place of a name, counted from n.
unfoldable pub index_from : ℕ → String → List String → Option ℕ
index_from n name [] = none
index_from n name (x ∷ xs) =
    let rest = index_from (suc n) name xs in if str_eq x name then some n else rest

-- A name's index, of each service whose class name is in the list, and the other services.
module _ (priorities : List String) (class_name : String → String) where
  unfoldable pub ordered_services : List String → List (ℕ × String)
  ordered_services [] = []
  ordered_services (t ∷ ts) = elim (index_from 0 (class_name t) priorities) [
    | none ↦ ordered_services ts
    | some k ↦ (k, t) ∷ ordered_services ts
  ]

  unfoldable pub remaining_services : List String → List String
  remaining_services [] = []
  remaining_services (t ∷ ts) = elim (index_from 0 (class_name t) priorities) [
    | none ↦ t ∷ remaining_services ts
    | some k ↦ remaining_services ts
  ]

abbrev pub index_before : ℕ × String → ℕ × String → Bool
index_before a b = ltb a.0 b.0

-- The order for the types that are registered, `class_name` giving the name of a type.
unfoldable pub order_services : List String → (String → String) → List String → List String
order_services priorities class_name types =
    map (λ (item : ℕ × String). item.1)
      (sort_by index_before (ordered_services priorities class_name types))
    ++ remaining_services priorities class_name types

abbrev pub startup_order : (String → String) → ServiceContainer → List String
startup_order class_name c =
    order_services priority_order class_name (map (λ (item : String × ℕ). item.0) c.services)

-- `reversed`
unfoldable pub reversed : {A : Type 0} → List A → List A
reversed [] = []
reversed (x ∷ xs) = reversed xs ++ x ∷ []

-- Which objects have a method `start`, and whether it goes through.
module _ (succeeds has_start start_succeeds : ℕ → Bool) where
  -- The objects that were started, and whether none failed.
  unfoldable pub start_each : List String → ServiceContainer → ServiceContainer × List ℕ × Bool
  start_each [] c = (c, [], true)
  start_each (t ∷ ts) c =
      let (c', answer) = get_service succeeds t c in
      let (c'', objects, fine) = start_each ts c' in
      elim answer [
        | not_registered ↦ (c', [], false)
        | build_failed ↦ (c', [], false)
        | got o ↦
            if has_start o && not (start_succeeds o)
            then (c', [], false)
            else (c'', if has_start o then o ∷ objects else objects, fine)
      ]

  unfoldable pub start_services :
      (String → String) → ServiceContainer → ServiceContainer × List ℕ × Bool
  start_services class_name c =
      if c.started
      then (c, [], true)
      else (let (c', objects, fine) = start_each (startup_order class_name c) c in
          if fine then (record c' { started = true }, objects, true) else (c', objects, false))

-- Which objects are true and have a method `stop`.
module _ (succeeds has_stop : ℕ → Bool) where
  -- The objects whose `stop` is called; what fails is passed over.
  unfoldable pub stop_each : List String → ServiceContainer → ServiceContainer × List ℕ
  stop_each [] c = (c, [])
  stop_each (t ∷ ts) c =
      let (c', answer) = get_service succeeds t c in
      let (c'', objects) = stop_each ts c' in
      elim answer [
        | not_registered ↦ (c'', objects)
        | build_failed ↦ (c'', objects)
        | got o ↦ (c'', if has_stop o then o ∷ objects else objects)
      ]

  unfoldable pub stop_services : (String → String) → ServiceContainer → ServiceContainer × List ℕ
  stop_services class_name c =
      if c.stopped
      then (c, [])
      else (let (c', objects) = stop_each (reversed (startup_order class_name c)) c in
          (record c' { stopped = true }, objects))
