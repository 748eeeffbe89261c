-- ===== src/Container/Order.antt =====
-- The order in which services are started.
use xzcccc_smart_media.Base.{
  ℕ, suc, ◌+◌, ◌≡◌, ◌<◌, refl, sym, ap, [], ◌∷◌, List, ◌++◌, map, Bool, true, false, ltb, String,
  str_eq, none, some, All, length, arith, Bool-cases, Option-cases, inl, inr,
}
use xzcccc_smart_media.LinkCache.Links.{insert_sorted, sort_by}
use xzcccc_smart_media.LinkCache.Bound.{All-sort_by}
use xzcccc_smart_media.Container.Startup.{
  index_from, ordered_services, remaining_services, index_before, order_services,
}

-- A type's rank: the place of its name among the priorities, and behind them all for another name.
abbrev pub rank : List String → (String → String) → String → ℕ
rank priorities class_name t = elim (index_from 0 (class_name t) priorities) [
  | none ↦ length priorities
  | some k ↦ k
]

abbrev pub rank_before : List String → (String → String) → String → String → Bool
rank_before priorities class_name t u =
    ltb (rank priorities class_name t) (rank priorities class_name u)

index_from-lt :
    (n k : ℕ) (name : String) (xs : List String) → index_from n name xs ≡ some k → k < n + length xs
unfolding index_from
index_from-lt n k name [] found = ground (arith, found)
index_from-lt n k name (x ∷ xs) found = elim (Bool-cases (str_eq x name)) [
  | inl e ↦ ground (arith, e, found)
  | inr e ↦ ground (arith, e, index_from-lt (suc n) k name xs)
]

module _ (priorities : List String) (class_name : String → String) where
  abbrev ranks : String → ℕ
  ranks = rank priorities class_name

  abbrev second : ℕ × String → String
  second item = item.1

  -- An item with its rank, which is that of a priority.
  abbrev Ranked : ℕ × String → Type 0
  Ranked item = (item.0 ≡ ranks item.1) × (item.0 < length priorities)

  abbrev Last : String → Type 0
  Last t = ranks t ≡ length priorities

  ordered-Ranked : (ts : List String) → All Ranked (ordered_services priorities class_name ts)
  unfolding ordered_services
  ordered-Ranked [] = tt
  ordered-Ranked (t ∷ ts) = elim (Option-cases (index_from 0 (class_name t) priorities)) [
    | inl other ↦ rw (other, ordered_services) (ordered-Ranked ts)
    | inr (k, found) ↦
        rw (found, ordered_services)
          (
            (
              ground (arith, found),
              omega (arith, index_from-lt 0 k (class_name t) priorities found),
            ),
            ordered-Ranked ts,
          )
  ]

  remaining-Last : (ts : List String) → All Last (remaining_services priorities class_name ts)
  unfolding remaining_services
  remaining-Last [] = tt
  remaining-Last (t ∷ ts) = elim (Option-cases (index_from 0 (class_name t) priorities)) [
    | inl other ↦ rw (other, remaining_services) (ground (arith, other), remaining-Last ts)
    | inr (k, found) ↦ rw (found, remaining_services) (remaining-Last ts)
  ]

  -- A ranked type goes among the ranked ones, the others stay behind.
  insert_sorted-Ranked :
      (item : ℕ × String) (items : List (ℕ × String)) (others : List String)
      → Ranked item
      → All Ranked items
      → All Last others
      → map second (insert_sorted index_before item items) ++ others
        ≡ insert_sorted (rank_before priorities class_name) item.1 (map second items ++ others)
  unfolding insert_sorted
  insert_sorted-Ranked (k, t) [] [] own ranked last = refl
  insert_sorted-Ranked (k, t) [] (u ∷ us) (e, below) ranked (at_end, last) =
      let later : ltb (ranks u) (ranks t) ≡ false = ground arith in rw later refl
  insert_sorted-Ranked (k, t) ((j, u) ∷ items) others (e, below) ((f, under), ranked) last =
      let same : ltb (ranks u) (ranks t) ≡ ltb j k = ground arith in
      elim (Bool-cases (ltb j k)) [
        | inl before ↦
            rw (same, insert_sorted)
              (rw before (
                ap (λ (rest : List String). u ∷ rest)
                  (insert_sorted-Ranked (k, t) items others (e, below) ranked last)))
        | inr after ↦ rw (same, insert_sorted) (rw after refl)
      ]

  -- Another type goes behind the ranked ones and before the others.
  insert_sorted-Last :
      (t : String) (items : List (ℕ × String)) (others : List String)
      → Last t
      → All Ranked items
      → All Last others
      → insert_sorted (rank_before priorities class_name) t (map second items ++ others)
        ≡ map second items ++ t ∷ others
  unfolding insert_sorted
  insert_sorted-Last t [] [] own ranked last = refl
  insert_sorted-Last t [] (u ∷ us) own ranked (at_end, last) =
      let later : ltb (ranks u) (ranks t) ≡ false = ground arith in rw later refl
  insert_sorted-Last t ((j, u) ∷ items) others own ((f, under), ranked) last =
      let before : ltb (ranks u) (ranks t) ≡ true = ground arith in
      rw (before, insert_sorted)
        (ap (λ (rest : List String). u ∷ rest) (insert_sorted-Last t items others own ranked last))

  -- The order in which services are started is the stable sort of the registered types by rank, which is
  -- the place of a type's class name in the list of priorities, and the same last rank for any other name.
  pub order_services-sort_by :
      (types : List String)
      → order_services priorities class_name types
        ≡ sort_by (rank_before priorities class_name) types
  unfolding order_services sort_by ordered_services remaining_services
  order_services-sort_by [] = refl
  order_services-sort_by (t ∷ ts) =
      let items = ordered_services priorities class_name ts in
      let others = remaining_services priorities class_name ts in
      let ranked = All-sort_by index_before Ranked items (ordered-Ranked ts) in
      elim (Option-cases (index_from 0 (class_name t) priorities)) [
        | inl other ↦ rw (sym (order_services-sort_by ts)) (
            ground (
              arith,
              other,
              insert_sorted-Last t (sort_by index_before items) others (ground (arith, other))
                  ranked (remaining-Last ts),
            ))
        | inr (k, found) ↦ rw (sym (order_services-sort_by ts)) (
            ground (
              arith,
              found,
              insert_sorted-Ranked (k, t) (sort_by index_before items) others
                  (
                    ground (arith, found),
                    omega (arith, index_from-lt 0 k (class_name t) priorities found),
                  )
                  ranked (remaining-Last ts),
            ))
      ]
