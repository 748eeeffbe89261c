-- ===== src/WriteQueue/Order.antt =====
-- The order in which tasks leave the queue.
use xzcccc_smart_media.Base.{
  ℕ, ◌≤◌, zero, suc, ◌≡◌, refl, List, [], ◌∷◌, ◌++◌, true, false, not, none, some, leb,
  if◌then◌else◌, length, All, All-imp, arith, Bool-cases, Option-cases, inl, inr, ap, keep, str_eq,
}
use mathlib.Core.List.{Perm}
use mathlib.Core.List.Perm
use xzcccc_smart_media.WriteQueue.Queue.{WriteTask, WriteQueue, before, pop, get_batch}

module _ {V : Type 0} where
  -- The first task may leave the queue before the second: it is not less urgent, and if it is as
  -- urgent, it was not submitted later.
  abbrev pub InOrder : WriteTask V → WriteTask V → Type 0
  InOrder t u = (u.urgency ≤ t.urgency) × (u.urgency ≡ t.urgency → t.sequence ≤ u.sequence)

  -- The given task may leave before each task of the list.
  abbrev pub Least : WriteTask V → List (WriteTask V) → Type 0
  Least t = All (InOrder t)

  pub pop-none : (ts : List (WriteTask V)) → pop ts ≡ none → ts ≡ []
  unfolding pop
  pop-none [] h = refl
  pop-none (t ∷ ts) h = elim (Option-cases (pop ts)) [
    | inl e ↦ absurd (ground arith)
    | inr (r, e) ↦ elim (Bool-cases (before t r.0)) [
      | inl b ↦ absurd (ground arith)
      | inr b ↦ absurd (ground arith)
    ]
  ]

  before-InOrder : (t u : WriteTask V) → before t u ≡ true → InOrder t u
  unfolding before
  before-InOrder t u h = (ground arith, λ e. ground arith)

  not_before-InOrder : (t u : WriteTask V) → before t u ≡ false → InOrder u t
  unfolding before
  not_before-InOrder t u h = (ground arith, λ e. ground arith)

  InOrder-trans : (t u v : WriteTask V) → InOrder t u → InOrder u v → InOrder t v
  InOrder-trans t u v h k = (
    omega (arith, h.0, k.0),
    λ e.
        let a : u.urgency ≡ t.urgency = omega (arith, h.0, k.0, e) in
        let b : v.urgency ≡ u.urgency = omega (arith, h.0, k.0, e) in omega (arith, h.1 a, k.1 b),
  )

  -- What `pop` takes is least among what stays, and one task is taken.
  pub pop-Least :
      (ts rest : List (WriteTask V)) (t : WriteTask V)
      → pop ts ≡ some (t, rest)
      → Least t rest × (length ts ≡ suc (length rest))
  unfolding pop
  pop-Least [] rest t h = absurd (ground arith)
  pop-Least (x ∷ xs) rest t h = elim (Option-cases (pop xs)) [
    | inl e ↦
        let end : rest ≡ [] = ground arith in rw end (tt, ap (λ l. suc (length l)) (pop-none xs e))
    | inr ((u, more), e) ↦
        let (least, n) = pop-Least xs more u e in
        elim (Bool-cases (before x u)) [
          | inl first ↦
              let same : t ≡ x = ground arith in
              let others : rest ≡ u ∷ more = ground arith in
              rw (same, others)
                (
                  (
                    before-InOrder x u first,
                    All-imp _ _ (λ v k. InOrder-trans x u v (before-InOrder x u first) k) more
                        least,
                  ),
                  omega arith,
                )
          | inr later ↦
              let same : t ≡ u = ground arith in
              let others : rest ≡ x ∷ more = ground arith in
              rw (same, others) ((not_before-InOrder x u later, least), omega arith)
        ]
  ]

  -- What holds of all tasks of a queue holds of the one that is taken and of those that stay.
  pop-All {κ} :
      (P : WriteTask V → Type κ) (ts rest : List (WriteTask V)) (t : WriteTask V)
      → pop ts ≡ some (t, rest)
      → All P ts
      → P t × All P rest
  unfolding pop
  pop-All P [] rest t h all = absurd (ground arith)
  pop-All P (x ∷ xs) rest t h all = elim (Option-cases (pop xs)) [
    | inl e ↦
        let same : t ≡ x = ground arith in
        let end : rest ≡ [] = ground arith in rw (same, end) (all.0, tt)
    | inr ((u, more), e) ↦
        let (taken, stay) = pop-All P xs more u e all.1 in
        elim (Bool-cases (before x u)) [
          | inl first ↦
              let same : t ≡ x = ground arith in
              let others : rest ≡ u ∷ more = ground arith in
              rw (same, others) (all.0, (taken, stay))
          | inr later ↦
              let same : t ≡ u = ground arith in
              let others : rest ≡ x ∷ more = ground arith in
              rw (same, others) (taken, (all.0, stay))
        ]
  ]

  get_batch-All {κ} :
      (P : WriteTask V → Type κ) (n : ℕ) (q : WriteQueue V)
      → All P q.queue
      → All P (get_batch n q).1 × All P (get_batch n q).0.queue
  unfolding get_batch
  get_batch-All P zero q all = (tt, all)
  get_batch-All P (suc n) q all = elim (Option-cases (pop q.queue)) [
    | inl e ↦ rw (e, get_batch) (tt, all)
    | inr ((t, rest), e) ↦
        let (here, stay) = pop-All P q.queue rest t e all in
        let (ts, left) = get_batch-All P n _ stay in rw (e, get_batch) ((here, ts), left)
  ]

  -- In a sorted list no later task comes before an earlier one.
  abbrev pub Sorted : List (WriteTask V) → Type 0
  Sorted [] = Unit
  Sorted (t ∷ ts) = Least t ts × Sorted ts

  length-get_batch :
      (n : ℕ) (q : WriteQueue V)
      → length (get_batch n q).1 ≡ (if leb n (length q.queue) then n else length q.queue)
  unfolding get_batch
  length-get_batch zero q = ground arith
  length-get_batch (suc n) q = elim (Option-cases (pop q.queue)) [
    | inl e ↦
        let empty : length q.queue ≡ 0 = ap length (pop-none q.queue e) in
        rw (e, get_batch) (ground arith)
    | inr ((t, rest), e) ↦
        let one = (pop-Least q.queue rest t e).1 in
        let more = length-get_batch n (record q {
          queue = rest;
          merge_cache = keep (λ item. not (str_eq item.1.1 t.task_id)) q.merge_cache;
        }) in
        rw (e, get_batch) (ground arith)
  ]

  get_batch_order :
      (n : ℕ) (q : WriteQueue V)
      → Sorted (get_batch n q).1 × All (λ t. Least t (get_batch n q).0.queue) (get_batch n q).1
  unfolding get_batch
  get_batch_order zero q = (tt, tt)
  get_batch_order (suc n) q = elim (Option-cases (pop q.queue)) [
    | inl e ↦ rw (e, get_batch) (tt, tt)
    | inr ((t, rest), e) ↦
        let least = (pop-Least q.queue rest t e).0 in
        let (ts, left) = get_batch-All (InOrder t) n _ least in
        let (sorted, first) = get_batch_order n _ in rw (e, get_batch) ((ts, sorted), (left, first))
  ]

  -- The task that is taken and those that stay are the tasks of the queue.
  pop-perm :
      (ts rest : List (WriteTask V)) (t : WriteTask V)
      → pop ts ≡ some (t, rest)
      → Perm (t ∷ rest) ts
  unfolding pop
  pop-perm [] rest t h = absurd (ground arith)
  pop-perm (x ∷ xs) rest t h = elim (Option-cases (pop xs)) [
    | inl e ↦
        let same : t ≡ x = ground arith in
        let end : rest ≡ [] = ground arith in rw (same, end, pop-none xs e) (Perm.refl (x ∷ []))
    | inr ((u, more), e) ↦
        let others = pop-perm xs more u e in
        elim (Bool-cases (before x u)) [
          | inl first ↦
              let same : t ≡ x = ground arith in
              let left : rest ≡ u ∷ more = ground arith in rw (same, left) (Perm.cons x others)
          | inr later ↦
              let same : t ≡ u = ground arith in
              let left : rest ≡ x ∷ more = ground arith in
              rw (same, left) (Perm.trans (Perm.swap x u more) (Perm.cons x others))
        ]
  ]

  get_batch-perm :
      (n : ℕ) (q : WriteQueue V) → Perm ((get_batch n q).1 ++ (get_batch n q).0.queue) q.queue
  unfolding get_batch
  get_batch-perm zero q = Perm.refl q.queue
  get_batch-perm (suc n) q = elim (Option-cases (pop q.queue)) [
    | inl e ↦ rw (e, get_batch) (Perm.refl q.queue)
    | inr ((t, rest), e) ↦
        let more = get_batch-perm n (record q {
          queue = rest;
          merge_cache = keep (λ item. not (str_eq item.1.1 t.task_id)) q.merge_cache;
        }) in
        rw (e, get_batch) (Perm.trans (Perm.cons t more) (pop-perm q.queue rest t e))
  ]

  -- A batch of at most `n` tasks takes `n` tasks, or all if there are fewer; the batch and the tasks that
  -- stay are together the tasks of the queue, each as often as before; the batch has its tasks in the order
  -- of priority and, for equal priorities, of submission; and no task that stays in the queue should have
  -- left before one of the batch.
  pub get_batch-Sorted :
      (n : ℕ) (q : WriteQueue V)
      → let (q', batch) = get_batch n q in
        (length batch ≡ (if leb n (length q.queue) then n else length q.queue))
        × Perm (batch ++ q'.queue) q.queue
        × Sorted batch
        × All (λ t. Least t q'.queue) batch
  get_batch-Sorted n q =
      let (sorted, first) = get_batch_order n q in
      (length-get_batch n q, get_batch-perm n q, sorted, first)
