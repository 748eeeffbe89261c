-- ===== src/Manager/Cascade.antt =====
-- Which namespaces an invalidation takes along.
use mathlib.Core.Path.{subst}
use xzcccc_smart_media.Base.{
  ℕ, ◌+◌, ◌≡◌, refl, sym, String, List, [], ◌∷◌, Bool, true, false, ◌&&◌, ◌||◌, none, ◌==◌,
  if◌then◌else◌, any, arith, Bool-cases, inl, inr, ◌∙◌, ap,
}
use xzcccc_smart_media.Manager.Space.{NamespacedCache}
use xzcccc_smart_media.Manager.Reach.{IsSound, get-increment_version}
use xzcccc_smart_media.Manager.Namespaces.{
  CacheNamespace, link, file_size, tmdb, quark_api, strm, emby, proxy, rename, scrape, general,
  namespace_dependencies, place, is_same, CacheManager, update, manager_get, drop_space,
  cascade_over, invalidate_primary, invalidate_related, count,
}

at_place : ℕ → CacheNamespace
at_place n =
    if n == 0
    then link
    else if n == 1
    then file_size
    else if n == 2
    then tmdb
    else if n == 3
    then quark_api
    else if n == 4
    then strm
    else if n == 5
    then emby
    else if n == 6
    then proxy
    else if n == 7
    then rename
    else if n == 8
    then scrape
    else general

at_place-place : (n : CacheNamespace) → at_place (place n) ≡ n
unfolding at_place
at_place-place link = refl
at_place-place file_size = refl
at_place-place tmdb = refl
at_place-place quark_api = refl
at_place-place strm = refl
at_place-place emby = refl
at_place-place proxy = refl
at_place-place rename = refl
at_place-place scrape = refl
at_place-place general = refl

is_same_eq : (a b : CacheNamespace) → is_same a b ≡ true → a ≡ b
is_same_eq a b h =
    let e : place a ≡ place b = ground arith in
    sym (at_place-place a) ∙ ap at_place e ∙ at_place-place b

-- The namespaces of a list are distinct.
abbrev Distinct : List CacheNamespace → Type 0
Distinct [] = Unit
Distinct (n ∷ ns) = (any (λ m. is_same m n) ns ≡ false) × Distinct ns

-- The dependent namespaces are distinct, and the namespace itself is none of them.
dependencies-Distinct : (n : CacheNamespace) → Distinct (n ∷ namespace_dependencies n)
unfolding any
dependencies-Distinct link = (refl, (refl, tt))
dependencies-Distinct quark_api = (refl, (refl, (refl, (refl, tt))))
dependencies-Distinct tmdb = (refl, (refl, (refl, tt)))
dependencies-Distinct emby = (refl, (refl, tt))
dependencies-Distinct file_size = (refl, tt)
dependencies-Distinct strm = (refl, tt)
dependencies-Distinct proxy = (refl, tt)
dependencies-Distinct rename = (refl, tt)
dependencies-Distinct scrape = (refl, tt)
dependencies-Distinct general = (refl, tt)

-- The namespaces that an invalidation of the first one takes along.
abbrev pub is_affected : Bool → CacheNamespace → CacheNamespace → Bool
is_affected cascades n k =
    is_same n k || (cascades && any (λ d. is_same d k) (namespace_dependencies n))

module _ {V : Type 0} where
  get-update :
      (f : NamespacedCache V → NamespacedCache V) (n k : CacheNamespace)
      (spaces : CacheNamespace → NamespacedCache V)
      → update n (f (spaces n)) spaces k ≡ (if is_same n k then f (spaces k) else spaces k)
  unfolding update
  get-update f n k spaces = elim (Bool-cases (is_same n k)) [
    | inl same ↦ rw same (ap (λ x. f (spaces x)) (is_same_eq n k same))
    | inr differ ↦ rw differ refl
  ]

  get-cascade_over :
      (now : ℕ) (k : CacheNamespace) (ns : List CacheNamespace) (m : CacheManager V)
      → Distinct ns
      → (cascade_over now ns m).spaces k ≡ (
          if any (λ n. is_same n k) ns
          then drop_space now m.enable_versioning (m.spaces k)
          else m.spaces k)
  unfolding cascade_over any
  get-cascade_over now k [] m d = refl
  get-cascade_over now k (n ∷ ns) m d =
      let f = drop_space now m.enable_versioning in
      let m' : CacheManager V =
        count (record m { spaces = update n (f (m.spaces n)) m.spaces })
          λ s. record s { total_invalidations = s.total_invalidations + 1 } in
      let rest = get-cascade_over now k ns m' d.1 in
      let here = get-update f n k m.spaces in
      elim (Bool-cases (is_same n k)) [
        | inl same ↦
            let none' : any (λ x. is_same x k) ns ≡ false =
              subst (λ x. any (λ y. is_same y x) ns ≡ false) (is_same_eq n k same) d.0 in
            simp (rest, here, same, none') refl
        | inr differ ↦ simp (rest, here, differ) refl
      ]

  -- The invalidation of a whole namespace gives a new version to it and, if it cascades, to the
  -- namespaces that the table lists for it, once each, or empties them where there are no versions;
  -- it leaves every other namespace as it was. The table is not followed any further.
  pub invalidate_related-spaces :
      (now : ℕ) (n k : CacheNamespace) (cascade : Bool) (m : CacheManager V)
      → (invalidate_related now n none cascade m).0.spaces k ≡ (
          if is_affected (cascade && m.enable_cross_namespace) n k
          then drop_space now m.enable_versioning (m.spaces k)
          else m.spaces k)
  unfolding invalidate_related invalidate_primary cascade_over any
  invalidate_related-spaces now n k cascade m =
      elim (Bool-cases (cascade && m.enable_cross_namespace)) [
        | inl along ↦
            simp along
              (get-cascade_over now k (n ∷ namespace_dependencies n) m (dependencies-Distinct n))
        | inr alone ↦ simp alone (get-cascade_over now k (n ∷ []) m (unfold any in refl, tt))
      ]

  -- With versions, and namespaces whose caches are valid and hold no key of a later version than the
  -- present one: after the invalidation of a whole namespace no look-up in an affected namespace
  -- finds anything, and what a look-up finds in every other namespace stays.
  pub get-invalidate_related :
      (now later : ℕ) (n k : CacheNamespace) (key : String) (cascade : Bool) (m : CacheManager V)
      → m.enable_versioning ≡ true
      → ((x : CacheNamespace) → IsSound (m.spaces x))
      → (manager_get later k key (invalidate_related now n none cascade m).0).1 ≡ (
          if is_affected (cascade && m.enable_cross_namespace) n k
          then none
          else (manager_get later k key m).1)
  unfolding manager_get
  get-invalidate_related now later n k key cascade m on sound =
      let gone = get-increment_version now later key (m.spaces k) (sound k) in
      elim (Bool-cases (is_affected (cascade && m.enable_cross_namespace) n k)) [
        | inl hit ↦ simp (invalidate_related-spaces now n k cascade m, hit, on, gone) refl
        | inr spared ↦ simp (invalidate_related-spaces now n k cascade m, spared) refl
      ]
