-- ===== src/WriteQueue/Lost.antt =====
-- An update whose commit fails is lost.
use xzcccc_smart_media.Base.{
  ◌+◌, ◌≡◌, refl, sym, ap, ◌∙◌, String, [], ◌∷◌, true, false, none, some, leb, is_some, arith,
}
use mathlib.Core.Path.{subst}
use xzcccc_smart_media.Dict
use xzcccc_smart_media.Dict.{Dict, get-remove, remove_absent}
use xzcccc_smart_media.WriteQueue.Queue.{
  WriteQueueMetrics, update_op, WriteTask, WriteQueue, retry_task,
}
use xzcccc_smart_media.WriteQueue.Execute.{
  Database, refresh, tried, retry_tasks, count_completed, execute_single_task, execute_each,
  execute_model_batch,
}

module _ {V D : Type 0} (base : Database V D) where
  -- The first write takes the id out of the task.
  update-fields :
      (t : WriteTask V) (d : D)
      → t.operation ≡ update_op
      → (execute_single_task base t d).0 ≡ record t { fields = Dict.remove "id" t.fields }
  unfolding execute_single_task
  update-fields t d update = ground (arith, update)

  -- An update without an id changes nothing and raises nothing.
  update-without_id :
      (t : WriteTask V) (d : D)
      → t.operation ≡ update_op
      → Dict.get "id" t.fields ≡ none
      → (execute_single_task base t d).1 ≡ some d
  unfolding execute_single_task
  update-without_id t d update absent = rw (update, execute_single_task) (rw absent refl)

  -- The task of an update that was executed once.
  abbrev without_id : WriteTask V → WriteTask V
  without_id t = record t { fields = Dict.remove "id" t.fields }

  -- A batch of one task whose write goes through, and whose commit does or does not.
  execute_each-one :
      (registry : Dict String) (model : String) (t : WriteTask V) (d d' : D) (q : WriteQueue V)
      → is_some (Dict.get model registry) ≡ true
      → (execute_single_task base t d).1 ≡ some d'
      → (execute_each base (t ∷ []) d q)
        ≡ ((execute_single_task base t d).0 ∷ [], d', count_completed q)
  unfolding execute_each
  execute_each-one registry model t d d' q known written = rw (written, execute_each) refl

  execute_model_batch-refused :
      (registry : Dict String) (model : String) (t : WriteTask V) (d d' : D) (q : WriteQueue V)
      → is_some (Dict.get model registry) ≡ true
      → (execute_single_task base t d).1 ≡ some d'
      → base.commit d' ≡ none
      → execute_model_batch base registry model (t ∷ []) d q
        ≡ (d, retry_tasks ((execute_single_task base t d).0 ∷ []) (count_completed q))
  unfolding execute_model_batch
  execute_model_batch-refused registry model t d d' q known written refused =
      ground (arith, known, execute_each-one registry model t d d' q known written, refused)

  execute_model_batch-stored :
      (registry : Dict String) (model : String) (t : WriteTask V) (d d' stored : D)
      (q : WriteQueue V)
      → is_some (Dict.get model registry) ≡ true
      → (execute_single_task base t d).1 ≡ some d'
      → base.commit d' ≡ some stored
      → ((execute_model_batch base registry model (t ∷ []) d q).0 ≡ stored)
        × ((execute_model_batch base registry model (t ∷ []) d q).1.metrics.completed_tasks
            ≡ q.metrics.completed_tasks + 1)
  unfolding execute_model_batch
  execute_model_batch-stored registry model t d d' stored q known written done =
      ground (arith, known, execute_each-one registry model t d d' q known written, done)

  -- The retry of a task with a retry left, from an empty queue.
  retry_tasks-one :
      (t : WriteTask V) (q : WriteQueue V)
      → leb t.max_retries (t.retry_count + 1) ≡ false
      → q.queue ≡ []
      → ((retry_tasks (t ∷ []) q).queue ≡ tried t ∷ [])
        × ((retry_tasks (t ∷ []) q).metrics ≡ q.metrics)
  unfolding retry_tasks retry_task refresh
  retry_tasks-one t q left empty = ground (arith, left, empty)

  tried-fields :
      (t : WriteTask V) → ((tried t).fields ≡ t.fields) × ((tried t).operation ≡ t.operation)
  tried-fields t = ground arith

  -- An update is alone in its batch, its model is registered, a retry is left, and the queue is empty. Its
  -- write goes through but the commit raises, and so the stored data stay as they are, and the update is
  -- queued again. When a later commit of the unchanged data goes through, then the task that was queued
  -- is executed without any change of the data, and counts as completed, now for the second time.
  pub execute_model_batch-lost :
      (registry : Dict String) (model : String) (t : WriteTask V) (d d' : D) (q : WriteQueue V)
      → is_some (Dict.get model registry) ≡ true
      → t.operation ≡ update_op
      → leb t.max_retries (t.retry_count + 1) ≡ false
      → q.queue ≡ []
      → (execute_single_task base t d).1 ≡ some d'
      → base.commit d' ≡ none
      → base.commit d ≡ some d
      → (again : WriteTask V) × ((execute_model_batch base registry model (t ∷ []) d q).0 ≡ d)
        × ((execute_model_batch base registry model (t ∷ []) d q).1.queue ≡ again ∷ [])
        × ((execute_model_batch base registry model (t ∷ []) d q).1.metrics.completed_tasks
            ≡ q.metrics.completed_tasks + 1)
        × ((execute_model_batch base registry model
              (again ∷ [])
              d
              (execute_model_batch base registry model (t ∷ []) d q).1).0
            ≡ d)
        × ((execute_model_batch base registry model
              (again ∷ [])
              d
              (execute_model_batch base registry model (t ∷ []) d q).1).1.metrics.completed_tasks
            ≡ q.metrics.completed_tasks + 2)
  execute_model_batch-lost registry model t d d' q known update left empty written refused stored =
      let once : WriteTask V = without_id t in
      let first : execute_model_batch base registry model (t ∷ []) d q
          ≡ (d, retry_tasks (once ∷ []) (count_completed q)) =
        execute_model_batch-refused registry model t d d' q known written refused
        ∙ ap (λ (u : WriteTask V). (d, retry_tasks (u ∷ []) (count_completed q)))
            (update-fields t d update) in
      let (queued, counters) = retry_tasks-one once (count_completed q) left empty in
      let (same, operation) = tried-fields once in
      let absent : Dict.get "id" (tried once).fields ≡ none =
        ap (Dict.get "id") same ∙ get-remove "id" "id" t.fields in
      let idle = update-without_id (tried once) d (operation ∙ update) absent in
      let (data_same, counted) =
        execute_model_batch-stored registry model (tried once) d d d
          (retry_tasks (once ∷ []) (count_completed q)) known idle stored in
      subst
        (λ (r : D × WriteQueue V).
          (again : WriteTask V) × (r.0 ≡ d)
          × (r.1.queue ≡ again ∷ [])
          × (r.1.metrics.completed_tasks ≡ q.metrics.completed_tasks + 1)
          × ((execute_model_batch base registry model (again ∷ []) d r.1).0 ≡ d)
          × ((execute_model_batch base registry model (again ∷ []) d r.1).1.metrics.completed_tasks
              ≡ q.metrics.completed_tasks + 2))
        (sym first)
        (
          tried once,
          refl,
          queued,
          ap (λ (m : WriteQueueMetrics). m.completed_tasks) counters,
          data_same,
          ground (arith, counted, counters),
        )
