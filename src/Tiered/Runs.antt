-- ===== src/Tiered/Runs.antt =====
-- Runs of the cache of several levels against a dictionary that may forget.
use xzcccc_smart_media.Base.{ℕ, ◌≡◌, refl, List, [], ◌∷◌, true, String, Option, none, some}
use xzcccc_smart_media.Dict
use xzcccc_smart_media.Dict.{Dict}
use xzcccc_smart_media.Tiered.Level.{Level, IsLevel}
use xzcccc_smart_media.Tiered.Cache.{
  TieredCache, Found, fetched, raised, get, set, drain, delete, clear,
}
use xzcccc_smart_media.Tiered.Refine.{
  Allowed, IsCoherent, get-IsCoherent, set-IsCoherent, delete-IsCoherent, clear-IsCoherent,
}
use xzcccc_smart_media.Tiered.Warmup.{warmup, IsBulk, warmup-IsCoherent}

-- The requests of a client, and the dictionary after each.
pub data CacheRequest (V : Type 0) : Type 0 where
  get_key : String → CacheRequest V
  set_key : String → V → Option ℕ → CacheRequest V
  delete_key : String → CacheRequest V
  clear_levels : CacheRequest V
  warm_up : List String → CacheRequest V

abbrev pub spec_step : {V : Type 0} → CacheRequest V → Dict V → Dict V
spec_step (get_key k) m = m
spec_step (set_key k v ttl) m = Dict.put k v m
spec_step (delete_key k) m = Dict.remove k m
spec_step clear_levels m = []
spec_step (warm_up keys) m = m

-- A warm-up that raised, or went through.
abbrev pub outcome : {V : Type 0} → Option ℕ → Found V
outcome none = raised
outcome (some n) = fetched none

module _ {S1 S2 S3 V : Type 0} (o1 : Level S1 V) (o2 : Level S2 V) (o3 : Level S3 V)
    (l1 : IsLevel S1 V o1) (l2 : IsLevel S2 V o2) (l3 : IsLevel S3 V o3)
    (get_many : ℕ → List String → S2 → S2 × Dict V) (bulk : IsBulk o2 l2 get_many) where
  -- A request at a time; the worker has emptied the queue before the next one. A look-up has an answer.
  unfoldable pub quiet_step :
      ℕ → CacheRequest V → TieredCache S1 S2 S3 V → TieredCache S1 S2 S3 V × Found V
  quiet_step now (get_key k) c = get o1 o2 o3 now k c
  quiet_step now (set_key k v ttl) c =
      (drain o1 o2 o3 now (set o1 o2 o3 now k v ttl true c).0, fetched none)
  quiet_step now (delete_key k) c = ((delete o1 o2 o3 k c).0, fetched none)
  quiet_step now clear_levels c = ((clear o1 o2 o3 c).0, fetched none)
  quiet_step now (warm_up keys) c =
      let (c', warmed) = warmup o1 o2 o3 get_many now keys c in (c', outcome warmed)

  -- What is allowed as the answer of a request.
  abbrev pub Answers : Dict V → CacheRequest V → Found V → Type 0
  Answers m (get_key k) f = Allowed m k f
  Answers m (set_key k v ttl) f = Unit {0}
  Answers m (delete_key k) f = Unit {0}
  Answers m clear_levels f = Unit {0}
  Answers m (warm_up keys) f = f ≡ fetched none

  -- Every request of a run is answered as the dictionary allows that the requests before it leave.
  abbrev pub Refines : Dict V → TieredCache S1 S2 S3 V → List (ℕ × CacheRequest V) → Type 0
  Refines m c [] = Unit {0}
  Refines m c ((now, r) ∷ rest) =
      Answers m r (quiet_step now r c).1 × Refines (spec_step r m) (quiet_step now r c).0 rest

  quiet_step-IsCoherent :
      (now : ℕ) (r : CacheRequest V) (m : Dict V) (c : TieredCache S1 S2 S3 V)
      → IsCoherent o1 o2 o3 l1 l2 l3 m c
      → IsCoherent o1 o2 o3 l1 l2 l3 (spec_step r m) (quiet_step now r c).0
        × Answers m r (quiet_step now r c).1
  unfolding quiet_step
  quiet_step-IsCoherent now (get_key k) m c h = get-IsCoherent o1 o2 o3 l1 l2 l3 now k m c h
  quiet_step-IsCoherent now (set_key k v ttl) m c h =
      (set-IsCoherent o1 o2 o3 l1 l2 l3 now now k v ttl m c h, tt)
  quiet_step-IsCoherent now (delete_key k) m c h = (delete-IsCoherent o1 o2 o3 l1 l2 l3 k m c h, tt)
  quiet_step-IsCoherent now clear_levels m c h = (clear-IsCoherent o1 o2 o3 l1 l2 l3 m c h, tt)
  quiet_step-IsCoherent now (warm_up keys) m c h =
      let (n, e, coherent) = warmup-IsCoherent o1 o2 o3 l1 l2 l3 get_many now keys m c bulk h in
      (coherent, rw e refl)

  -- Over any levels that keep their promise, the cache is a dictionary that may forget: in any run of
  -- look-ups, persisted writes, deletions, clearings and warm-ups, at any times, where the worker
  -- empties its queue between two requests, no look-up and no warm-up raises, and each look-up gives
  -- either nothing or the value that the key was last set to, and that was not deleted or cleared
  -- since. The bulk look-up of the second level gives only what that level holds.
  pub run-Refines :
      (requests : List (ℕ × CacheRequest V)) (m : Dict V) (c : TieredCache S1 S2 S3 V)
      → IsCoherent o1 o2 o3 l1 l2 l3 m c
      → Refines m c requests
  run-Refines [] m c h = tt
  run-Refines ((now, r) ∷ rest) m c h =
      let (kept, allowed) = quiet_step-IsCoherent now r m c h in
      (allowed, run-Refines rest (spec_step r m) (quiet_step now r c).0 kept)
