-- ===== src/Playback/Sticky.antt =====
-- When a route is taken away from direct playback, and for how long.
use xzcccc_smart_media.Base.{
  ℕ, ◌+◌, ◌≤◌, ◌≡◌, refl, seconds, String, List, [], ◌∷◌, false, ◌&&◌, Option, none, some, ltb, leb,
  if◌then◌else◌, length, arith, Bool-cases, inl, inr, eq_iff,
}
use mathlib.Core.Path.{subst}
use xzcccc_smart_media.Dict
use xzcccc_smart_media.Dict.{Dict, get-put, get-remove}
use xzcccc_smart_media.Playback.Texts.{Texts}
use xzcccc_smart_media.Playback.Health.{
  RouteHealthState, new_state, Policy, is_off, build_route_key, sticky_state, should_sticky_proxy,
  current_state, count_failure, record_direct_failure,
}

module _ (texts : Texts) (policy : Policy) (client : String) (url : Option String) where
  -- Failures of one route at the given times.
  unfoldable pub record_failures : List ℕ → Dict RouteHealthState → Dict RouteHealthState
  record_failures [] states = states
  record_failures (now ∷ later) states =
      record_failures later (record_direct_failure texts policy client url "" now states)

  -- The failures follow one another within the time to live, the first at `last` or after it.
  abbrev pub Close : ℕ → List ℕ → Type 0
  Close last [] = Unit
  Close last (now ∷ later) = (last ≤ now) × (now ≤ last + seconds policy.ttl_sec) × Close now later

  -- The last of the times.
  abbrev pub final : ℕ → List ℕ → ℕ
  final last [] = last
  final last (now ∷ later) = final now later

  -- What the state of a route says after `count` close failures, the last one at `last`.
  abbrev Counted : ℕ → ℕ → RouteHealthState → Type 0
  Counted count last s =
      (s.failure_count ≡ count)
      × (s.last_failure_at ≡ last)
      × (s.sticky_until ≡ (if leb policy.threshold count then last + seconds policy.ttl_sec else 0))

  sticky_by_count :
      (s : RouteHealthState) (last now count : ℕ)
      → s.sticky_until ≡ (if leb policy.threshold count then last + seconds policy.ttl_sec else 0)
      → (sticky_state now s).0
        ≡ (leb policy.threshold count && ltb now (last + seconds policy.ttl_sec))
  unfolding sticky_state
  sticky_by_count s last now count e = elim (Bool-cases (leb policy.threshold count)) [
    | inl reached ↦ rw (e, reached) ground arith
    | inr short ↦ rw (e, short) ground arith
  ]

  module _ (key : String) (route : build_route_key texts client url ≡ some key)
      (on : is_off policy ≡ false) where
    count_next :
        (count last now : ℕ) (states : Dict RouteHealthState) (s : RouteHealthState)
        → Dict.get key states ≡ some s
        → Counted count last s
        → last ≤ now
        → now ≤ last + seconds policy.ttl_sec
        → (s' : RouteHealthState) × (Dict.get key
              (record_direct_failure texts policy client url "" now states)
            ≡ some s')
          × Counted (count + 1) now s'
    unfolding record_direct_failure Dict.get count_failure
    count_next count last now states s found c le near =
        (count_failure policy now "" s, recorded, unfold count_failure in ground arith)
      where
        same : current_state policy now (some s) ≡ s
        same = unfold current_state in ground arith

        recorded :
            Dict.get key (record_direct_failure texts policy client url "" now states)
            ≡ some (count_failure policy now "" s)
        recorded = rw (
          on,
          route,
          found,
          same,
          record_direct_failure,
          get-put key key (count_failure policy now "" s) states,
          (eq_iff key key).1 refl,
        )

    count_all :
        (times : List ℕ) (count last : ℕ) (states : Dict RouteHealthState) (s : RouteHealthState)
        → Dict.get key states ≡ some s
        → Counted count last s
        → Close last times
        → (s' : RouteHealthState) × (Dict.get key (record_failures times states) ≡ some s')
          × Counted (count + length times) (final last times) s'
    unfolding record_failures
    count_all [] count last states s found c close =
        (s, found, subst (λ n. Counted n last s) (omega arith) c)
    count_all (now ∷ later) count last states s found c close =
        let (s1, found1, c1) = count_next count last now states s found c close.0 close.1 in
        let (s2, found2, c2) =
          count_all later (count + 1) now
            (record_direct_failure texts policy client url "" now states) s1 found1 c1 close.2 in
        (s2, found2, subst (λ n. Counted n (final now later) s2) (omega arith) c2)

    -- The first failure of a route of which nothing is known.
    count_first :
        (now : ℕ) (states : Dict RouteHealthState)
        → Dict.get key states ≡ none
        → (s : RouteHealthState) × (Dict.get key
              (record_direct_failure texts policy client url "" now states)
            ≡ some s)
          × Counted 1 now s
    unfolding record_direct_failure Dict.get count_failure
    count_first now states gone =
        (count_failure policy now "" new_state, recorded, unfold count_failure in ground arith)
      where
        recorded :
            Dict.get key (record_direct_failure texts policy client url "" now states)
            ≡ some (count_failure policy now "" new_state)
        recorded = rw (
          on,
          route,
          gone,
          record_direct_failure,
          current_state,
          get-put key key (count_failure policy now "" new_state) states,
          (eq_iff key key).1 refl,
        )

    sticky-Counted :
        (s : RouteHealthState) (last now count : ℕ) (states : Dict RouteHealthState)
        → Dict.get key states ≡ some s
        → Counted count last s
        → (should_sticky_proxy texts policy client url now states).1
          ≡ (leb policy.threshold count && ltb now (last + seconds policy.ttl_sec))
    unfolding should_sticky_proxy
    sticky-Counted s last now count states found c =
        rw (on, route, found) (sticky_by_count s last now count c.2)

    -- Of a route with a key of which nothing is known, under a policy that is on, failures that
    -- follow one another within the time to live are counted: the route is sticky exactly if the
    -- threshold is reached and the time is before the last failure's plus the time to live.
    pub sticky_after_failures :
        (first now : ℕ) (later : List ℕ) (states : Dict RouteHealthState)
        → Dict.get key states ≡ none
        → Close first later
        → (should_sticky_proxy texts policy client url now
            (record_failures (first ∷ later) states)).1
          ≡ (leb policy.threshold (length (first ∷ later))
              && ltb now (final first later + seconds policy.ttl_sec))
    unfolding record_failures
    sticky_after_failures first now later states gone close =
        let (s1, found1, c1) = count_first first states gone in
        let (s2, found2, c2) =
          count_all later 1 first (record_direct_failure texts policy client url "" first states) s1
            found1 c1 close in
        let c : Counted (length (first ∷ later)) (final first later) s2 =
          subst (λ n. Counted n (final first later) s2) (omega arith) c2 in
        sticky-Counted s2 (final first later) now (length (first ∷ later))
          (record_failures (first ∷ later) states) found2 c
