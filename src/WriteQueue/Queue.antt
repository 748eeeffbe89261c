-- ===== src/WriteQueue/Queue.antt =====
-- `AsyncWriteQueue` of app/core/db_write_queue.py up to the choice of a batch, without its callbacks and
-- its waiting times. The heap of `heapq` is the list of its tasks; the operations take its least one.
use xzcccc_smart_media.Base.{
  ℕ, zero, suc, ◌+◌, String, List, [], ◌∷◌, Bool, not, ◌&&◌, ◌||◌, Option, none, some, ltb, leb,
  ◌==◌, if◌then◌else◌, length, keep, str_eq,
}
use Prim.Native.Nat.{max}
use xzcccc_smart_media.Dict
use xzcccc_smart_media.Dict.{Dict}

pub data WriteOperation : Type 0 where
  insert_op : WriteOperation
  update_op : WriteOperation
  delete_op : WriteOperation
  upsert_op : WriteOperation

pub data WritePriority : Type 0 where
  low : WritePriority
  normal : WritePriority
  high : WritePriority
  critical : WritePriority

abbrev pub priority_value : WritePriority → ℕ
priority_value low = 0
priority_value normal = 1
priority_value high = 2
priority_value critical = 3

-- `urgency` is the negative of the field `priority`, so that the greatest urgency comes first.
pub record WriteTask (V : Type 0) : Type 0 where
  pub urgency : ℕ
  pub sequence : ℕ
  pub operation : WriteOperation
  pub model_class : String
  pub fields : Dict V
  pub retry_count : ℕ
  pub max_retries : ℕ
  pub task_id : String

-- The counters of `WriteQueueMetrics` that these operations write.
pub record WriteQueueMetrics : Type 0 where
  pub total_tasks : ℕ
  pub completed_tasks : ℕ
  pub failed_tasks : ℕ
  pub current_queue_size : ℕ
  pub peak_queue_size : ℕ
  pub merged_writes : ℕ
  pub batch_writes : ℕ

-- `merge_cache` holds task objects in the code; here it holds the sequence number of the task, which
-- is its identity, and its id.
pub record WriteQueue (V : Type 0) : Type 0 where
  pub running : Bool
  pub max_queue_size : ℕ
  pub queue : List (WriteTask V)
  pub last_sequence : ℕ
  pub merge_cache : Dict (ℕ × String)
  pub metrics : WriteQueueMetrics

-- What `submit` returns, or the RuntimeError that it raises.
pub data Submitted : Type 0 where
  accepted : String → Submitted
  not_running : Submitted
  queue_full : Submitted

module _ {V : Type 0} where
  -- The order of `WriteTask`: by priority, then by sequence.
  unfoldable pub before : WriteTask V → WriteTask V → Bool
  before t u = ltb u.urgency t.urgency || t.urgency == u.urgency && ltb t.sequence u.sequence

  -- `old.update(new)`
  unfoldable pub merge_fields : Dict V → Dict V → Dict V
  merge_fields old [] = old
  merge_fields old ((k, v) ∷ new) = merge_fields (Dict.put k v old) new

  -- The change of the task with a sequence number, wherever it is in the queue.
  unfoldable pub merge_into : ℕ → Dict V → List (WriteTask V) → List (WriteTask V)
  merge_into n new [] = []
  merge_into n new (t ∷ ts) =
      let rest = merge_into n new ts in
      if t.sequence == n
      then record t { fields = merge_fields t.fields new; retry_count = 0 } ∷ rest
      else t ∷ rest

  -- The end of `submit`: the task goes to the queue, if there is room.
  unfoldable pub push : WriteTask V → WriteQueue V → WriteQueue V × Submitted
  push t q =
      let size = length q.queue + 1 in
      if leb q.max_queue_size (length q.queue) then (q, queue_full) else (
        record q {
          queue = t ∷ q.queue;
          metrics = record q.metrics {
            total_tasks = q.metrics.total_tasks + 1;
            current_queue_size = size;
            peak_queue_size = max q.metrics.peak_queue_size size;
          };
        },
        accepted t.task_id,
      )

  -- `submit`; `fresh_id` is the id that uuid4 gives. No merge key, or an empty one, is `none`.
  unfoldable pub submit :
      WriteOperation
      → String
      → Dict V
      → WritePriority
      → Option String
      → String
      → WriteQueue V
      → WriteQueue V × Submitted
  submit operation model_class fields priority merge_key fresh_id q =
      let n = q.last_sequence + 1 in
      let t : WriteTask V = record {
        urgency = priority_value priority;
        sequence = n;
        operation = operation;
        model_class = model_class;
        fields = fields;
        retry_count = 0;
        max_retries = 3;
        task_id = fresh_id;
      } in
      let counted : WriteQueue V = record q { last_sequence = n } in
      if not q.running then (q, not_running) else elim merge_key [
        | none ↦ push t counted
        | some key ↦ elim (Dict.get key q.merge_cache) [
          | some (old, old_id) ↦ (
            record counted {
              queue = merge_into old fields q.queue;
              metrics = record q.metrics { merged_writes = q.metrics.merged_writes + 1 };
            },
            accepted old_id,
          )
          | none ↦
              push t (record counted { merge_cache = Dict.put key (n, fresh_id) q.merge_cache })
        ]
      ]

  -- `heapq.heappop`: the least task, and the others.
  unfoldable pub pop : List (WriteTask V) → Option (WriteTask V × List (WriteTask V))
  unfolding before
  pop [] = none
  pop (t ∷ ts) = elim (pop ts) [
    | none ↦ some (t, [])
    | some (u, rest) ↦ if before t u then some (t, u ∷ rest) else some (u, t ∷ rest)
  ]

  -- The tasks that `_get_batch` takes, in their order, where none has to be waited for and the time is
  -- not over: the task leaves the cache of merge keys, too.
  unfoldable pub get_batch : ℕ → WriteQueue V → WriteQueue V × List (WriteTask V)
  get_batch zero q = (q, [])
  get_batch (suc n) q = elim (pop q.queue) [
    | none ↦ (q, [])
    | some (t, rest) ↦
        let (q', ts) = get_batch n (record q {
          queue = rest;
          merge_cache = keep (λ item. not (str_eq item.1.1 t.task_id)) q.merge_cache;
        }) in
        (q', t ∷ ts)
  ]

  -- `_retry_task`
  unfoldable pub retry_task : WriteTask V → WriteQueue V → WriteQueue V
  retry_task t q =
      let tries = t.retry_count + 1 in
      if leb t.max_retries tries
      then record q { metrics = record q.metrics { failed_tasks = q.metrics.failed_tasks + 1 } }
      else record q {
        queue = record t { retry_count = tries; urgency = max t.urgency 2 } ∷ q.queue;
      }

  unfoldable pub clear : WriteQueue V → WriteQueue V × ℕ
  clear q = (
    record q {
      queue = [];
      merge_cache = [];
      metrics = record q.metrics { current_queue_size = 0 };
    },
    length q.queue,
  )
