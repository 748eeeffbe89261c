-- ===== src/WriteQueue/Account.antt =====
-- The number of the tasks that are completed, have failed or wait, over a round of the worker.
use xzcccc_smart_media.Base.{
  ℕ, zero, suc, ◌+◌, ◌≤◌, ◌==◌, if◌then◌else◌, ◌≡◌, refl, ap, String, List, [], ◌∷◌, ◌++◌, true,
  none, some, length, length-append, is_some, keep, not, str_eq, arith, Bool-cases, Option-cases,
  inl, inr,
}
use xzcccc_smart_media.Dict
use xzcccc_smart_media.Dict.{Dict}
use xzcccc_smart_media.WriteQueue.Waiting.{waiting_under, worker_round-weight}
use xzcccc_smart_media.WriteQueue.Queue.{WriteTask, WriteQueue, pop, get_batch, retry_task}
use xzcccc_smart_media.WriteQueue.Order.{pop-Least}
use xzcccc_smart_media.WriteQueue.Execute.{
  Database, add_to_group, grouped, fail_tasks, count_completed, execute_single_task, execute_each,
  execute_model_batch, execute_groups, worker_round,
}

module _ {V : Type 0} where
  -- The tasks that are completed, have failed or wait.
  abbrev pub accounted : WriteQueue V → ℕ
  accounted q = q.metrics.completed_tasks + q.metrics.failed_tasks + length q.queue

  retry_task-accounted :
      (t : WriteTask V) (q : WriteQueue V) → accounted (retry_task t q) ≡ accounted q + 1
  unfolding retry_task
  retry_task-accounted t q = ground arith

  -- How many tasks the groups hold.
  abbrev group_sizes : Dict (List (WriteTask V)) → ℕ
  group_sizes [] = 0
  group_sizes ((model, ts) ∷ groups) = length ts + group_sizes groups

  put-group_sizes :
      (model : String) (old new : List (WriteTask V)) (groups : Dict (List (WriteTask V)))
      → Dict.get model groups ≡ some old
      → group_sizes (Dict.put model new groups) + length old ≡ group_sizes groups + length new
  unfolding Dict.get Dict.put
  put-group_sizes model old new [] found = ground (arith, found)
  put-group_sizes model old new ((k, ts) ∷ groups) found =
      ground (arith, found, put-group_sizes model old new groups, ap (length {A = WriteTask V}))

  put-group_sizes_new :
      (model : String) (new : List (WriteTask V)) (groups : Dict (List (WriteTask V)))
      → Dict.get model groups ≡ none
      → group_sizes (Dict.put model new groups) ≡ group_sizes groups + length new
  unfolding Dict.get Dict.put
  put-group_sizes_new model new [] absent = omega arith
  put-group_sizes_new model new ((k, ts) ∷ groups) absent =
      ground (arith, absent, put-group_sizes_new model new groups)

  add_to_group-group_sizes :
      (t : WriteTask V) (groups : Dict (List (WriteTask V)))
      → group_sizes (add_to_group t groups) ≡ group_sizes groups + 1
  unfolding add_to_group
  add_to_group-group_sizes t groups = elim (Option-cases (Dict.get t.model_class groups)) [
    | inl absent ↦
        rw (absent, add_to_group) (put-group_sizes_new t.model_class (t ∷ []) groups absent)
    | inr (ts, found) ↦
        rw (found, add_to_group)
          (omega (
            arith,
            put-group_sizes t.model_class ts (ts ++ t ∷ []) groups found,
            length-append ts (t ∷ []),
          ))
  ]

  grouped-group_sizes :
      (ts : List (WriteTask V)) (groups : Dict (List (WriteTask V)))
      → group_sizes (grouped ts groups) ≡ group_sizes groups + length ts
  unfolding grouped
  grouped-group_sizes [] groups = omega arith
  grouped-group_sizes (t ∷ ts) groups =
      omega
        (arith, grouped-group_sizes ts (add_to_group t groups), add_to_group-group_sizes t groups)

  get_batch-length :
      (n : ℕ) (q : WriteQueue V)
      → (length (get_batch n q).0.queue + length (get_batch n q).1 ≡ length q.queue)
        × ((get_batch n q).0.metrics ≡ q.metrics)
  unfolding get_batch
  get_batch-length zero q = (omega arith, refl)
  get_batch-length (suc n) q = elim (Option-cases (pop q.queue)) [
    | inl empty ↦ rw (empty, get_batch) (omega arith, refl)
    | inr ((t, rest), found) ↦
        let taken = (pop-Least q.queue rest t found).1 in
        let (same, counters) = get_batch-length n (record q {
          queue = rest;
          merge_cache = keep (λ item. not (str_eq item.1.1 t.task_id)) q.merge_cache;
        }) in
        rw (found, get_batch) (omega (arith, taken, same), counters)
  ]

  module _ {D : Type 0} (base : Database V D) where
    execute_each-accounted :
        (ts : List (WriteTask V)) (d : D) (q : WriteQueue V)
        → accounted (execute_each base ts d q).2 ≡ accounted q + length ts
    unfolding execute_each
    execute_each-accounted [] d q = omega arith
    execute_each-accounted (t ∷ ts) d q = elim (Option-cases (execute_single_task base t d).1) [
      | inr (d', done) ↦
          rw (done, execute_each) (omega (arith, execute_each-accounted ts d' (count_completed q)))
      | inl error ↦
          rw (error, execute_each)
            (omega (
              arith,
              execute_each-accounted ts d (retry_task (execute_single_task base t d).0 q),
              retry_task-accounted (execute_single_task base t d).0 q,
            ))
    ]

    module _ (commits : (d : D) → is_some (base.commit d) ≡ true) where
      execute_model_batch-accounted :
          (registry : Dict String) (model : String) (ts : List (WriteTask V)) (d : D)
          (q : WriteQueue V)
          → accounted (execute_model_batch base registry model ts d q).1 ≡ accounted q + length ts
      unfolding execute_model_batch fail_tasks
      execute_model_batch-accounted registry model ts d q =
          elim (Bool-cases (is_some (Dict.get model registry))) [
            | inr unknown ↦ rw (unknown, execute_model_batch) (omega arith)
            | inl known ↦ elim (Option-cases (base.commit (execute_each base ts d q).1)) [
              | inl refused ↦ ground (arith, commits (execute_each base ts d q).1, refused)
              | inr (stored, done) ↦
                  rw (known, execute_model_batch) (rw done (execute_each-accounted ts d q))
            ]
          ]

      execute_groups-accounted :
          (registry : Dict String) (groups : Dict (List (WriteTask V))) (d : D) (q : WriteQueue V)
          → accounted (execute_groups base registry groups d q).1 ≡ accounted q + group_sizes groups
      unfolding execute_groups
      execute_groups-accounted registry [] d q = omega arith
      execute_groups-accounted registry ((model, ts) ∷ groups) d q =
          let (d', q') = execute_model_batch base registry model ts d q in
          omega (
            arith,
            execute_groups-accounted registry groups d' q',
            execute_model_batch-accounted registry model ts d q,
          )

      worker_round-total :
          (registry : Dict String) (n : ℕ) (d : D) (q : WriteQueue V)
          → accounted (worker_round base registry n d q).1 ≡ accounted q
      unfolding worker_round
      worker_round-total registry n d q = by_batch (get_batch n q).1 refl
        where
          by_batch :
              (ts : List (WriteTask V))
              → (get_batch n q).1 ≡ ts
              → accounted (worker_round base registry n d q).1 ≡ accounted q
          by_batch [] e = rw (e, worker_round) (ground (arith, e, get_batch-length n q))
          by_batch (t ∷ ts) e =
              let total =
                execute_groups-accounted registry (grouped (t ∷ ts) []) d (get_batch n q).0 in
              let sizes = grouped-group_sizes (t ∷ ts) [] in
              rw (e, worker_round) (ground (arith, e, total, sizes, get_batch-length n q))

      -- As long as every commit goes through: a round of the worker, with a batch of any size and any
      -- outcome of the single writes, leaves the number of the tasks that are completed, have failed or
      -- wait in the queue as it was, and no sequence number, which each submitted task has for itself, has
      -- more tasks waiting in the queue than before.
      pub worker_round-accounted :
          (registry : Dict String) (n : ℕ) (d : D) (q : WriteQueue V) (number : ℕ)
          → (accounted (worker_round base registry n d q).1 ≡ accounted q)
            × (waiting_under number (worker_round base registry n d q).1.queue
                ≤ waiting_under number q.queue)
      worker_round-accounted registry n d q number = (
        worker_round-total registry n d q,
        worker_round-weight base commits (λ k. if k == number then 1 else 0) registry n d q,
      )
