-- ===== src/WriteQueue/Execute.antt =====
-- The worker of app/core/db_write_queue.py: a batch is grouped by model, and each group is written in one
-- database session. The database, with the models' classes, is a parameter. A task is one object, so what
-- a write changes of it is seen by the retries.
use xzcccc_smart_media.Base.{
  ℕ, ◌+◌, String, List, [], ◌∷◌, ◌++◌, Bool, Option, none, some, ◌==◌, if◌then◌else◌, length,
  is_some, leb, max,
}
use xzcccc_smart_media.Dict
use xzcccc_smart_media.Dict.{Dict}
use xzcccc_smart_media.WriteQueue.Queue.{
  WriteOperation, insert_op, update_op, delete_op, upsert_op, WritePriority, WriteTask, WriteQueue,
  accepted, not_running, queue_full, submit, get_batch, retry_task,
}

-- What the writes use of SQLAlchemy and of the models: each is none where it raises. A session begins with
-- the stored data, and `commit` is the new stored data.
pub record Database (V D : Type 0) : Type 0 where
  pub truthy : V → Bool
  pub add_row : String → Dict V → D → Option D
  pub update_row : String → V → Dict V → D → Option D
  pub delete_rows : String → V → D → Option D
  pub upsert_row : String → Dict V → D → Option D
  pub commit : D → Option D

-- The registry, which keeps the name of a class for a name.
unfoldable pub register_model : String → String → Dict String → Dict String
register_model name class_name registry = Dict.put name class_name registry

module _ {V : Type 0} where
  -- `submit_batch`: the ids, or the exception of the first task that is refused.
  unfoldable pub submit_batch :
      List (WriteOperation × String × Dict V × String)
      → WritePriority
      → WriteQueue V
      → WriteQueue V × Option (List String)
  submit_batch [] priority q = (q, some [])
  submit_batch ((operation, model, fields, fresh_id) ∷ tasks) priority q =
      let (q', answer) = submit operation model fields priority none fresh_id q in
      let (q'', rest) = submit_batch tasks priority q' in
      elim answer [
        | not_running ↦ (q', none)
        | queue_full ↦ (q', none)
        | accepted id ↦ elim rest [ none ↦ (q'', none) | some ids ↦ (q'', some (id ∷ ids)) ]
      ]

  unfoldable pub add_to_group : WriteTask V → Dict (List (WriteTask V)) → Dict (List (WriteTask V))
  add_to_group t groups = elim (Dict.get t.model_class groups) [
    | none ↦ Dict.put t.model_class (t ∷ []) groups
    | some ts ↦ Dict.put t.model_class (ts ++ t ∷ []) groups
  ]

  unfoldable pub grouped :
      List (WriteTask V) → Dict (List (WriteTask V)) → Dict (List (WriteTask V))
  grouped [] groups = groups
  grouped (t ∷ ts) groups = grouped ts (add_to_group t groups)

  -- The queue's copies of a task, which are the object itself.
  unfoldable pub refresh : WriteTask V → List (WriteTask V) → List (WriteTask V)
  refresh t [] = []
  refresh t (u ∷ us) =
      let rest = refresh t us in if u.sequence == t.sequence then t ∷ rest else u ∷ rest

  -- The object after `_retry_task`.
  abbrev pub tried : WriteTask V → WriteTask V
  tried t =
      if leb t.max_retries (t.retry_count + 1)
      then record t { retry_count = t.retry_count + 1 }
      else record t { retry_count = t.retry_count + 1; urgency = max t.urgency 2 }

  -- A retry of each task, for a session that failed as a whole.
  unfoldable pub retry_tasks : List (WriteTask V) → WriteQueue V → WriteQueue V
  retry_tasks [] q = q
  retry_tasks (t ∷ ts) q =
      retry_tasks ts (retry_task t (record q { queue = refresh (tried t) q.queue }))

  -- Every task fails, where the model is not registered.
  unfoldable pub fail_tasks : List (WriteTask V) → WriteQueue V → WriteQueue V
  fail_tasks ts q = record q {
    metrics = record q.metrics { failed_tasks = q.metrics.failed_tasks + length ts };
  }

  abbrev pub count_completed : WriteQueue V → WriteQueue V
  count_completed q = record q {
    metrics = record q.metrics { completed_tasks = q.metrics.completed_tasks + 1 };
  }

  module _ {D : Type 0} (base : Database V D) where
    -- An id that counts: there, and true.
    abbrev pub true_id : Option V → Option V
    true_id none = none
    true_id (some id) = if base.truthy id then some id else none

    -- `_execute_single_task`: the task as it is afterwards, and the session's data, or none where it raises.
    unfoldable pub execute_single_task : WriteTask V → D → WriteTask V × Option D
    execute_single_task t d = elim t.operation [
      | insert_op ↦ (t, base.add_row t.model_class t.fields d)
      | update_op ↦
          let popped = Dict.remove "id" t.fields in
          (
            record t { fields = popped },
            elim (true_id (Dict.get "id" t.fields)) [
              | none ↦ some d
              | some id ↦ base.update_row t.model_class id popped d
            ],
          )
      | delete_op ↦ (
        t,
        elim (true_id (Dict.get "id" t.fields)) [
          | none ↦ some d
          | some id ↦ base.delete_rows t.model_class id d
        ],
      )
      | upsert_op ↦ (t, base.upsert_row t.model_class t.fields d)
    ]

    -- The tasks of a session, one after the other: a task that raises is retried later. The tasks come out
    -- as the writes leave them.
    unfoldable pub execute_each :
        List (WriteTask V) → D → WriteQueue V → List (WriteTask V) × D × WriteQueue V
    execute_each [] d q = ([], d, q)
    execute_each (t ∷ ts) d q = elim (execute_single_task t d).1 [
      | some d' ↦
          let (ts', d'', q') = execute_each ts d' (count_completed q) in
          ((execute_single_task t d).0 ∷ ts', d'', q')
      | none ↦
          let (ts', d'', q') = execute_each ts d (retry_task (execute_single_task t d).0 q) in
          (tried (execute_single_task t d).0 ∷ ts', d'', q')
    ]

    -- `_execute_model_batch`, and the retry of all its tasks in `_execute_batch` where the commit raises.
    unfoldable pub execute_model_batch :
        Dict String → String → List (WriteTask V) → D → WriteQueue V → D × WriteQueue V
    execute_model_batch registry model ts d q =
        if is_some (Dict.get model registry)
        then (let (ts', d', q') = execute_each ts d q in
            elim (base.commit d') [
              | none ↦ (d, retry_tasks ts' q')
              | some stored ↦ (
                stored,
                record q' { metrics = record q'.metrics { current_queue_size = length q'.queue } },
              )
            ])
        else (d, fail_tasks ts q)

    unfoldable pub execute_groups :
        Dict String → Dict (List (WriteTask V)) → D → WriteQueue V → D × WriteQueue V
    execute_groups registry [] d q = (d, q)
    execute_groups registry ((model, ts) ∷ groups) d q =
        let (d', q') = execute_model_batch registry model ts d q in
        execute_groups registry groups d' q'

    abbrev pub execute_batch :
        Dict String → List (WriteTask V) → D → WriteQueue V → D × WriteQueue V
    execute_batch registry ts d q = execute_groups registry (grouped ts []) d q

    abbrev pub count_batch : D × WriteQueue V → D × WriteQueue V
    count_batch (d, q) =
        (d, record q { metrics = record q.metrics { batch_writes = q.metrics.batch_writes + 1 } })

    -- One round of `_worker_loop`, with up to n tasks.
    unfoldable pub worker_round : Dict String → ℕ → D → WriteQueue V → D × WriteQueue V
    worker_round registry n d q =
        let (q', ts) = get_batch n q in
        elim ts [ [] ↦ (d, q') | t ∷ rest ↦ count_batch (execute_batch registry (t ∷ rest) d q') ]
