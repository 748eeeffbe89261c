-- ===== src/Container/Lifecycle.antt =====
-- What start_services starts and stop_services stops.
use xzcccc_smart_media.Base.{
  ℕ, ◌≡◌, refl, sym, ap, ◌∙◌, [], ◌∷◌, List, map, Bool, true, false, if◌then◌else◌, String, Option,
  none, some, All, All-append, All-imp, keep, arith,
}
use xzcccc_smart_media.Dict
use mathlib.Core.List.{map-append}
use mathlib.Core.Path.{subst}
use xzcccc_smart_media.LinkCache.Bound.{All-sort_by}
use xzcccc_smart_media.Container.Registry.{
  ServiceContainer, Resolved, got, not_registered, build_failed, get_service,
}
use xzcccc_smart_media.Container.Resolve.{get_service-keeps, get_service-known, get_service-holds}
use xzcccc_smart_media.Container.Startup.{
  priority_order, order_services, startup_order, reversed, start_each, start_services, stop_each,
  stop_services,
}
use xzcccc_smart_media.Container.Order.{rank_before, order_services-sort_by}
use xzcccc_smart_media.Container.Same.{Same, Shared, Same-trans, Shared-Same, get_service-Same}

module _ (succeeds : ℕ → Bool) where
  abbrev object_of : ServiceContainer → String → Option ℕ
  object_of c t = Dict.get t c.instances

  abbrev Plain : ServiceContainer → String → Type 0
  Plain c t = Dict.get t c.overrides ≡ none

  -- What `get` answers for each of the types.
  abbrev pub answers : ServiceContainer → List String → List Resolved
  answers c ts = map (λ t. (get_service succeeds t c).1) ts

  answers-known :
      (c : ServiceContainer) (ts : List String) (os : List ℕ)
      → All (Plain c) ts
      → map (object_of c) ts ≡ map some os
      → answers c ts ≡ map got os
  answers-known c [] [] plain e = refl
  answers-known c [] (o ∷ os) plain e = ground (arith, e)
  answers-known c (t ∷ ts) [] plain e = ground (arith, e)
  answers-known c (t ∷ ts) (o ∷ os) (plain, rest) e =
      ground (arith, get_service-known succeeds t o c plain, answers-known c ts os rest, e)

  module _ (has_start start_succeeds : ℕ → Bool) where
    abbrev each : List String → ServiceContainer → ServiceContainer × List ℕ × Bool
    each = start_each succeeds has_start start_succeeds

    start_each-keeps :
        (ts : List String) (t : String) (o : ℕ) (c : ServiceContainer)
        → Dict.get t c.instances ≡ some o
        → Dict.get t (each ts c).0.instances ≡ some o
    unfolding start_each
    start_each-keeps [] t o c kept = kept
    start_each-keeps (u ∷ us) t o c kept =
        let first = get_service-keeps succeeds t u o c kept in
        ground (arith, first, start_each-keeps us t o (get_service succeeds u c).0 first)

    -- One step of a start that goes through.
    start_each-step :
        (t : String) (ts : List String) (c : ServiceContainer)
        → (each (t ∷ ts) c).2 ≡ true
        → (o : ℕ) × ((get_service succeeds t c).1 ≡ got o)
          × ((each (t ∷ ts) c).0 ≡ (each ts (get_service succeeds t c).0).0)
          × ((each ts (get_service succeeds t c).0).2 ≡ true)
          × ((each (t ∷ ts) c).1 ≡ (
              if has_start o
              then o ∷ (each ts (get_service succeeds t c).0).1
              else (each ts (get_service succeeds t c).0).1))
    unfolding start_each
    start_each-step t ts c fine = by_answer (get_service succeeds t c).1 refl
      where
        by_answer :
            (answer : Resolved)
            → (get_service succeeds t c).1 ≡ answer
            → (o : ℕ) × ((get_service succeeds t c).1 ≡ got o)
              × ((each (t ∷ ts) c).0 ≡ (each ts (get_service succeeds t c).0).0)
              × ((each ts (get_service succeeds t c).0).2 ≡ true)
              × ((each (t ∷ ts) c).1 ≡ (
                  if has_start o
                  then o ∷ (each ts (get_service succeeds t c).0).1
                  else (each ts (get_service succeeds t c).0).1))
        by_answer not_registered e = let bad : ⊥ = ground (arith, e, fine) in elim bad [ ]
        by_answer build_failed e = let bad : ⊥ = ground (arith, e, fine) in elim bad [ ]
        by_answer (got o) e =
            (o, e, ground (arith, e, fine), ground (arith, e, fine), ground (arith, e, fine))

    start_each-starts :
        (ts : List String) (c : ServiceContainer)
        → All (Shared c) ts
        → (each ts c).2 ≡ true
        → (os : List ℕ) × (map (object_of (each ts c).0) ts ≡ map some os)
          × ((each ts c).1 ≡ keep has_start os)
          × Same c (each ts c).0
    unfolding start_each keep
    start_each-starts [] c shared fine = ([], refl, refl, (refl, refl, refl, refl, λ i. refl))
    start_each-starts (t ∷ ts) c ((plain, i, known, one), shared) fine =
        let (o, answer, after, later, started) = start_each-step t ts c fine in
        let first = get_service-Same succeeds t c in
        let (os, objects, log, same) =
          start_each-starts ts (get_service succeeds t c).0
            (All-imp (Shared c) (Shared (get_service succeeds t c).0)
              (λ u. Shared-Same c (get_service succeeds t c).0 u first) ts shared)
            later in
        let held =
          start_each-keeps ts t o (get_service succeeds t c).0
            (get_service-holds succeeds t o i c plain known one answer) in
        (
          o ∷ os,
          subst (λ (c' : ServiceContainer). map (object_of c') (t ∷ ts) ≡ map some (o ∷ os))
              (sym after) (ground (arith, held, objects)),
          rw started (rw log (ground arith)),
          rw after (
              Same-trans c (get_service succeeds t c).0 (each ts (get_service succeeds t c).0).0
                first same),
        )

  module _ (has_stop : ℕ → Bool) where
    -- Services that have their objects are stopped in the order given, and nothing else changes.
    stop_each-known :
        (c : ServiceContainer) (ts : List String) (os : List ℕ)
        → All (Plain c) ts
        → map (object_of c) ts ≡ map some os
        → stop_each succeeds has_stop ts c ≡ (c, keep has_stop os)
    unfolding stop_each keep
    stop_each-known c [] [] plain e = refl
    stop_each-known c [] (o ∷ os) plain e = ground (arith, e)
    stop_each-known c (t ∷ ts) [] plain e = ground (arith, e)
    stop_each-known c (t ∷ ts) (o ∷ os) (plain, rest) e =
        let known : get_service succeeds t c ≡ (c, got o) =
          get_service-known succeeds t o c plain (ground (arith, e)) in
        ground (arith, known, stop_each-known c ts os rest, e)

map-reversed : {A B : Type 0} (f : A → B) (xs : List A) → map f (reversed xs) ≡ reversed (map f xs)
unfolding reversed
map-reversed f [] = refl
map-reversed f (x ∷ xs) = rw (sym (map-reversed f xs)) (map-append f (reversed xs) (x ∷ []))

All-reversed : {A : Type 0} (P : A → Type 0) (xs : List A) → All P xs → All P (reversed xs)
unfolding reversed
All-reversed P [] h = tt
All-reversed P (x ∷ xs) (h, hs) = All-append P (reversed xs) (x ∷ []) (All-reversed P xs hs) (h, tt)

stop_services-known :
    (succeeds has_stop : ℕ → Bool) (class_name : String → String) (c : ServiceContainer)
    (os : List ℕ)
    → c.stopped ≡ false
    → All (Plain succeeds c) (startup_order class_name c)
    → map (object_of succeeds c) (startup_order class_name c) ≡ map some os
    → stop_services succeeds has_stop class_name c
      ≡ (record c { stopped = true }, keep has_stop (reversed os))
unfolding stop_services
stop_services-known succeeds has_stop class_name c os running plain objects =
    let order = startup_order class_name c in
    let stopping : stop_each succeeds has_stop (reversed order) c
        ≡ (c, keep has_stop (reversed os)) =
      stop_each-known succeeds has_stop c (reversed order) (reversed os)
        (All-reversed (Plain succeeds c) order plain)
        (map-reversed (object_of succeeds c) order
          ∙ ap reversed objects
          ∙ sym (map-reversed some os)) in
    ground (arith, running, stopping)

module _ (succeeds has_start start_succeeds has_stop : ℕ → Bool) where
  -- Take a container that is neither started nor stopped and whose registered types are all singletons
  -- that are not overridden, and let `start_services` go through. There are objects, one for each type in
  -- the order of the start, that `get` answers with afterwards. Those with a method `start` were started
  -- in this order, and `stop_services` then stops those with a method `stop` in the reverse order,
  -- without building another object.
  pub stop_services-start_services :
      (class_name : String → String) (c : ServiceContainer)
      → c.started ≡ false
      → c.stopped ≡ false
      → All (Shared c) (map (λ (item : String × ℕ). item.0) c.services)
      → (start_services succeeds has_start start_succeeds class_name c).2 ≡ true
      → (os : List ℕ) × (answers succeeds
            (start_services succeeds has_start start_succeeds class_name c).0
            (startup_order class_name c)
          ≡ map got os)
        × ((start_services succeeds has_start start_succeeds class_name c).1 ≡ keep has_start os)
        × (stop_services succeeds has_stop class_name
              (start_services succeeds has_start start_succeeds class_name c).0
            ≡ (
              record ((start_services succeeds has_start start_succeeds class_name c).0) {
                stopped = true;
              },
              keep has_stop (reversed os),
            ))
  unfolding start_services
  stop_services-start_services class_name c fresh running shared fine =
      let order = startup_order class_name c in
      let shared_order : All (Shared c) order =
        rw
          (order_services-sort_by priority_order class_name
            (map (λ (item : String × ℕ). item.0) c.services))
          (All-sort_by (rank_before priority_order class_name) (Shared c)
            (map (λ (item : String × ℕ). item.0) c.services) shared) in
      let each_fine : (start_each succeeds has_start start_succeeds order c).2 ≡ true =
        ground (arith, fresh, fine) in
      let (os, objects, log, same) =
        start_each-starts succeeds has_start start_succeeds order c shared_order each_fine in
      let c' : ServiceContainer =
        record ((start_each succeeds has_start start_succeeds order c).0) { started = true } in
      let started : start_services succeeds has_start start_succeeds class_name c
          ≡ (c', keep has_start os, true) =
        ground (arith, fresh, each_fine, log) in
      let same' : startup_order class_name c' ≡ order =
        ap
          (λ services.
            order_services priority_order class_name (map (λ (item : String × ℕ). item.0) services))
          same.1 in
      let plain : All (Plain succeeds c') order =
        All-imp (Shared c) (Plain succeeds c') (λ t h. ground (arith, h, same)) order
          shared_order in
      subst
        (λ (r : ServiceContainer × List ℕ × Bool).
          (os : List ℕ) × (answers succeeds r.0 order ≡ map got os)
          × (r.1 ≡ keep has_start os)
          × (stop_services succeeds has_stop class_name r.0
              ≡ (record (r.0) { stopped = true }, keep has_stop (reversed os))))
        (sym started)
        (
          os,
          answers-known succeeds c' order os plain objects,
          refl,
          stop_services-known succeeds has_stop class_name c' os (ground (arith, same, running))
              (rw same' plain) (rw same' objects),
        )
