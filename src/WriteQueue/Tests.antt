-- ===== src/WriteQueue/Tests.antt =====
-- The write queue on concrete input.
use xzcccc_smart_media.Base.{
  ℕ, ◌+◌, ◌++◌, ◌≤◌, ◌≡◌, refl, [], ◌∷◌, List, Bool, true, false, ◌||◌, ltb, leb, if◌then◌else◌,
  String, some, none, is_some, keep, length, All, arith,
}
use mathlib.Core.List.{Perm}
use xzcccc_smart_media.Dict
use xzcccc_smart_media.Dict.{Dict}
use xzcccc_smart_media.WriteQueue.Queue.{
  update_op, insert_op, normal, high, WriteTask, WriteQueueMetrics, WriteQueue, accepted,
  queue_full, get_batch, pop, before,
}
use xzcccc_smart_media.WriteQueue.Execute.{
  Database, worker_round, grouped, add_to_group, execute_single_task, execute_each,
  execute_model_batch, execute_groups,
}
use xzcccc_smart_media.WriteQueue.Waiting.{waiting_under}
use xzcccc_smart_media.WriteQueue.Account.{accounted, worker_round-accounted}
use xzcccc_smart_media.WriteQueue.Lost.{execute_model_batch-lost}
use xzcccc_smart_media.WriteQueue.Order.{Least, Sorted, get_batch-Sorted}
use xzcccc_smart_media.WriteQueue.Merge.{first, second, full_then_lost}

abbrev waiting : ℕ → ℕ → WriteTask ℕ
waiting urgency sequence = record {
  urgency = urgency;
  sequence = sequence;
  operation = insert_op;
  model_class = "File";
  fields = ("size", 1) ∷ [];
  retry_count = 0;
  max_retries = 3;
  task_id = "t";
}

abbrev counters : WriteQueueMetrics
counters = record {
  total_tasks = 2;
  completed_tasks = 0;
  failed_tasks = 0;
  current_queue_size = 2;
  peak_queue_size = 2;
  merged_writes = 0;
  batch_writes = 0;
}

abbrev queue : ℕ → WriteQueue ℕ
queue most = record {
  running = true;
  max_queue_size = most;
  queue = waiting 1 1 ∷ waiting 2 2 ∷ [];
  last_sequence = 2;
  merge_cache = [];
  metrics = counters;
}

get_batch-Sorted_example :
    let (q', batch) = get_batch 1 (queue 2) in
    (length batch ≡ 1)
    × Perm (batch ++ q'.queue) (queue 2).queue
    × Sorted batch
    × All (λ t. Least t q'.queue) batch
get_batch-Sorted_example = get_batch-Sorted 1 (queue 2)

full_then_lost_example :
    let r =
      second update_op update_op "File" "File"
        (("size", 2) ∷ [])
        (("size", 3) ∷ [])
        normal
        high
        "k"
        "a"
        "b"
        (queue 2) in
    ((first update_op update_op "File" "File"
        (("size", 2) ∷ [])
        (("size", 3) ∷ [])
        normal
        high
        "k"
        "a"
        "b"
        (queue 2)).1
      ≡ queue_full)
    × (r.1 ≡ accepted "a")
    × (r.0.queue ≡ (queue 2).queue)
full_then_lost_example =
    full_then_lost update_op update_op "File" "File" (("size", 2) ∷ []) (("size", 3) ∷ []) normal
      high "k" "a" "b" (queue 2) refl (unfold Dict.get in refl) refl
      (omega arith, (omega arith, tt))

-- A database that keeps the values written; the commit goes through, or only where there are none.
abbrev log_database : Bool → Database ℕ (List ℕ)
log_database always = record {
  truthy = λ id. ltb 0 id;
  add_row = λ model fields d. some (length fields ∷ d);
  update_row = λ model id fields d. some (id ∷ d);
  delete_rows = λ model id d. none;
  upsert_row = λ model fields d. some d;
  commit = λ d. if always || leb (length d) 0 then some d else none;
}

always_commits : (d : List ℕ) → is_some ((log_database true).commit d) ≡ true
always_commits d = refl

abbrev registry : Dict String
registry = ("File", "FileModel") ∷ []

worker_round-accounted_example :
    (accounted (worker_round (log_database true) registry 5 [] (queue 2)).1 ≡ accounted (queue 2))
    × (waiting_under 1 (worker_round (log_database true) registry 5 [] (queue 2)).1.queue
        ≤ waiting_under 1 (queue 2).queue)
worker_round-accounted_example =
    worker_round-accounted (log_database true) always_commits registry 5 [] (queue 2) 1

-- Both tasks are in one group, and both are written.
round_run : (worker_round (log_database true) registry 5 [] (queue 2)).0 ≡ 1 ∷ 1 ∷ []
unfolding worker_round get_batch pop before execute_groups execute_model_batch execute_each
    execute_single_task grouped add_to_group Dict.get Dict.put keep
round_run = refl

abbrev rename_task : WriteTask ℕ
rename_task = record (waiting 1 1) { operation = update_op; fields = ("id", 7) ∷ ("size", 2) ∷ [] }

abbrev drained_queue : WriteQueue ℕ
drained_queue = record (queue 2) { queue = [] }

execute_model_batch-lost_example :
    (again : WriteTask ℕ) × ((execute_model_batch
        (log_database false)
        registry
        "File"
        (rename_task ∷ [])
        []
        drained_queue).0
      ≡ [])
    × ((execute_model_batch
          (log_database false)
          registry
          "File"
          (rename_task ∷ [])
          []
          drained_queue).1.queue
        ≡ again ∷ [])
    × ((execute_model_batch
          (log_database false)
          registry
          "File"
          (rename_task ∷ [])
          []
          drained_queue).1.metrics.completed_tasks
        ≡ drained_queue.metrics.completed_tasks + 1)
    × ((execute_model_batch
          (log_database false)
          registry
          "File"
          (again ∷ [])
          []
          (execute_model_batch
            (log_database false)
            registry
            "File"
            (rename_task ∷ [])
            []
            drained_queue).1).0
        ≡ [])
    × ((execute_model_batch
          (log_database false)
          registry
          "File"
          (again ∷ [])
          []
          (execute_model_batch
            (log_database false)
            registry
            "File"
            (rename_task ∷ [])
            []
            drained_queue).1).1.metrics.completed_tasks
        ≡ drained_queue.metrics.completed_tasks + 2)
unfolding execute_single_task Dict.get Dict.remove
execute_model_batch-lost_example =
    execute_model_batch-lost (log_database false) registry "File" rename_task [] (7 ∷ [])
      drained_queue refl refl refl refl refl refl refl
