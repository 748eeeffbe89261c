-- ===== src/WriteQueue/Waiting.antt =====
-- No task waits more often after a round of the worker than before.
use xzcccc_smart_media.Base.{
  ℕ, zero, suc, ◌+◌, ◌≤◌, ◌==◌, leb, if◌then◌else◌, ◌≡◌, refl, ap, String, List, [], ◌∷◌, ◌++◌,
  true, none, some, is_some, keep, not, str_eq, arith, Bool-cases, Option-cases, inl, inr,
}
use xzcccc_smart_media.Dict
use xzcccc_smart_media.Dict.{Dict}
use xzcccc_smart_media.WriteQueue.Queue.{
  WriteTask, WriteQueue, WriteOperation, insert_op, update_op, delete_op, upsert_op, before, pop,
  get_batch, retry_task,
}
use xzcccc_smart_media.WriteQueue.Order.{pop-none}
use xzcccc_smart_media.WriteQueue.Execute.{
  Database, add_to_group, grouped, fail_tasks, count_completed, execute_single_task, execute_each,
  execute_model_batch, execute_groups, worker_round,
}

module _ {V : Type 0} where
  -- The weight of tasks whose weight stands with their sequence number, which is their identity.
  abbrev weight : (ℕ → ℕ) → List (WriteTask V) → ℕ
  weight w [] = 0
  weight w (t ∷ ts) = w t.sequence + weight w ts

  -- How many tasks wait under a sequence number.
  abbrev pub waiting_under : ℕ → List (WriteTask V) → ℕ
  waiting_under number ts = weight (λ k. if k == number then 1 else 0) ts

  weight-append :
      (w : ℕ → ℕ) (ts us : List (WriteTask V)) → weight w (ts ++ us) ≡ weight w ts + weight w us
  weight-append w [] us = omega arith
  weight-append w (t ∷ ts) us = omega (arith, weight-append w ts us)

  abbrev group_weights : (ℕ → ℕ) → Dict (List (WriteTask V)) → ℕ
  group_weights w [] = 0
  group_weights w ((model, ts) ∷ groups) = weight w ts + group_weights w groups

  put-group_weights :
      (w : ℕ → ℕ) (model : String) (old new : List (WriteTask V))
      (groups : Dict (List (WriteTask V)))
      → Dict.get model groups ≡ some old
      → group_weights w (Dict.put model new groups) + weight w old
        ≡ group_weights w groups + weight w new
  unfolding Dict.get Dict.put
  put-group_weights w model old new [] found = ground (arith, found)
  put-group_weights w model old new ((k, ts) ∷ groups) found =
      ground (arith, found, put-group_weights w model old new groups, ap (weight w))

  put-group_weights_new :
      (w : ℕ → ℕ) (model : String) (new : List (WriteTask V)) (groups : Dict (List (WriteTask V)))
      → Dict.get model groups ≡ none
      → group_weights w (Dict.put model new groups) ≡ group_weights w groups + weight w new
  unfolding Dict.get Dict.put
  put-group_weights_new w model new [] absent = omega arith
  put-group_weights_new w model new ((k, ts) ∷ groups) absent =
      ground (arith, absent, put-group_weights_new w model new groups)

  add_to_group-group_weights :
      (w : ℕ → ℕ) (t : WriteTask V) (groups : Dict (List (WriteTask V)))
      → group_weights w (add_to_group t groups) ≡ group_weights w groups + w t.sequence
  unfolding add_to_group
  add_to_group-group_weights w t groups = elim (Option-cases (Dict.get t.model_class groups)) [
    | inl absent ↦
        rw (absent, add_to_group)
          (omega (arith, put-group_weights_new w t.model_class (t ∷ []) groups absent))
    | inr (ts, found) ↦
        rw (found, add_to_group)
          (omega (
            arith,
            put-group_weights w t.model_class ts (ts ++ t ∷ []) groups found,
            weight-append w ts (t ∷ []),
          ))
  ]

  grouped-group_weights :
      (w : ℕ → ℕ) (ts : List (WriteTask V)) (groups : Dict (List (WriteTask V)))
      → group_weights w (grouped ts groups) ≡ group_weights w groups + weight w ts
  unfolding grouped
  grouped-group_weights w [] groups = omega arith
  grouped-group_weights w (t ∷ ts) groups = omega (
    arith,
    grouped-group_weights w ts (add_to_group t groups),
    add_to_group-group_weights w t groups,
  )

  -- The task that leaves the queue takes its weight with it.
  pop-weight :
      (w : ℕ → ℕ) (ts rest : List (WriteTask V)) (t : WriteTask V)
      → pop ts ≡ some (t, rest)
      → w t.sequence + weight w rest ≡ weight w ts
  unfolding pop
  pop-weight w [] rest t h = absurd (ground arith)
  pop-weight w (x ∷ xs) rest t h = elim (Option-cases (pop xs)) [
    | inl e ↦
        let same : t ≡ x = ground arith in
        let end : rest ≡ [] = ground arith in rw (same, end, pop-none xs e) refl
    | inr ((u, more), e) ↦
        let others = pop-weight w xs more u e in
        elim (Bool-cases (before x u)) [
          | inl first ↦
              let same : t ≡ x = ground arith in
              let left : rest ≡ u ∷ more = ground arith in rw (same, left) (omega (arith, others))
          | inr later ↦
              let same : t ≡ u = ground arith in
              let left : rest ≡ x ∷ more = ground arith in rw (same, left) (omega (arith, others))
        ]
  ]

  get_batch-weight :
      (w : ℕ → ℕ) (n : ℕ) (q : WriteQueue V)
      → weight w (get_batch n q).0.queue + weight w (get_batch n q).1 ≡ weight w q.queue
  unfolding get_batch
  get_batch-weight w zero q = omega arith
  get_batch-weight w (suc n) q = elim (Option-cases (pop q.queue)) [
    | inl empty ↦ rw (empty, get_batch) (omega arith)
    | inr ((t, rest), found) ↦
        let taken = pop-weight w q.queue rest t found in
        let same = get_batch-weight w n (record q {
          queue = rest;
          merge_cache = keep (λ item. not (str_eq item.1.1 t.task_id)) q.merge_cache;
        }) in
        rw (found, get_batch) (omega (arith, taken, same))
  ]

  retry_task-weight :
      (w : ℕ → ℕ) (t : WriteTask V) (q : WriteQueue V)
      → weight w (retry_task t q).queue ≤ weight w q.queue + w t.sequence
  unfolding retry_task
  retry_task-weight w t q = elim (Bool-cases (leb t.max_retries (t.retry_count + 1))) [
    | inl last ↦ rw (last, retry_task) (omega arith)
    | inr again ↦ rw (again, retry_task) (omega arith)
  ]

  module _ {D : Type 0} (base : Database V D) where
    execute_single_task-sequence :
        (t : WriteTask V) (d : D) → (execute_single_task base t d).0.sequence ≡ t.sequence
    unfolding execute_single_task
    execute_single_task-sequence t d = by_operation t.operation refl
      where
        by_operation :
            (op : WriteOperation)
            → t.operation ≡ op
            → (execute_single_task base t d).0.sequence ≡ t.sequence
        by_operation insert_op e = rw (e, execute_single_task) refl
        by_operation update_op e = rw (e, execute_single_task) refl
        by_operation delete_op e = rw (e, execute_single_task) refl
        by_operation upsert_op e = rw (e, execute_single_task) refl

    execute_each-weight :
        (w : ℕ → ℕ) (ts : List (WriteTask V)) (d : D) (q : WriteQueue V)
        → weight w (execute_each base ts d q).2.queue ≤ weight w q.queue + weight w ts
    unfolding execute_each
    execute_each-weight w [] d q = omega arith
    execute_each-weight w (t ∷ ts) d q = elim (Option-cases (execute_single_task base t d).1) [
      | inr (d', done) ↦
          rw (done, execute_each) (omega (arith, execute_each-weight w ts d' (count_completed q)))
      | inl error ↦
          rw (error, execute_each)
            (omega (
              arith,
              execute_each-weight w ts d (retry_task (execute_single_task base t d).0 q),
              retry_task-weight w (execute_single_task base t d).0 q,
              ap w (execute_single_task-sequence t d),
            ))
    ]

    module _ (commits : (d : D) → is_some (base.commit d) ≡ true) where
      execute_model_batch-weight :
          (w : ℕ → ℕ) (registry : Dict String) (model : String) (ts : List (WriteTask V)) (d : D)
          (q : WriteQueue V)
          → weight w (execute_model_batch base registry model ts d q).1.queue
            ≤ weight w q.queue + weight w ts
      unfolding execute_model_batch fail_tasks
      execute_model_batch-weight w registry model ts d q =
          elim (Bool-cases (is_some (Dict.get model registry))) [
            | inr unknown ↦ rw (unknown, execute_model_batch) (omega arith)
            | inl known ↦ elim (Option-cases (base.commit (execute_each base ts d q).1)) [
              | inl refused ↦ ground (arith, commits (execute_each base ts d q).1, refused)
              | inr (stored, done) ↦
                  rw (known, execute_model_batch) (rw done (execute_each-weight w ts d q))
            ]
          ]

      execute_groups-weight :
          (w : ℕ → ℕ) (registry : Dict String) (groups : Dict (List (WriteTask V))) (d : D)
          (q : WriteQueue V)
          → weight w (execute_groups base registry groups d q).1.queue
            ≤ weight w q.queue + group_weights w groups
      unfolding execute_groups
      execute_groups-weight w registry [] d q = omega arith
      execute_groups-weight w registry ((model, ts) ∷ groups) d q =
          let (d', q') = execute_model_batch base registry model ts d q in
          omega (
            arith,
            execute_groups-weight w registry groups d' q',
            execute_model_batch-weight w registry model ts d q,
          )

      pub worker_round-weight :
          (w : ℕ → ℕ) (registry : Dict String) (n : ℕ) (d : D) (q : WriteQueue V)
          → weight w (worker_round base registry n d q).1.queue ≤ weight w q.queue
      unfolding worker_round
      worker_round-weight w registry n d q = by_batch (get_batch n q).1 refl
        where
          by_batch :
              (ts : List (WriteTask V))
              → (get_batch n q).1 ≡ ts
              → weight w (worker_round base registry n d q).1.queue ≤ weight w q.queue
          by_batch [] e =
              let same = get_batch-weight w n q in rw (e, worker_round) (omega (arith, same))
          by_batch (t ∷ ts) e =
              let after =
                execute_groups-weight w registry (grouped (t ∷ ts) []) d (get_batch n q).0 in
              let held = grouped-group_weights w (t ∷ ts) [] in
              let counted = get_batch-weight w n q in
              let same : weight w (get_batch n q).0.queue + weight w (t ∷ ts) ≡ weight w q.queue =
                rw e at counted in
              rw (e, worker_round) (omega (arith, after, held, same))
