-- ===== src/Tasks/Queue.antt =====
-- app/services/platform/task_queue.py: the operations of `TaskService`, each on the table as its
-- transaction finds it. `now` is the argument of that name, or what `datetime.now()` returns.
use xzcccc_smart_media.Base.{
  seconds, ℕ, ◌+◌, ◌-◌, ◌*◌, ◌^◌, min, max, String, List, [], ◌∷◌, ◌++◌, Bool, true, false, not,
  ◌&&◌, ◌||◌, Option, none, some, ltb, leb, ◌==◌, if◌then◌else◌, is_some, or_default, str_eq, keep,
}
use xzcccc_smart_media.Tasks.Model.{
  pending, leased, cancel_requested, retry_scheduled, failed, cancelled, is_terminal, is_leaseable,
  is_active, is_cancel_requested, Task, ℤ, pos, negsuc, TaskCreate, attempt_limit,
}
use xzcccc_smart_media.Tasks.Table.{Table, get_task, modify, update_where, delete_row}

-- `raise ValueError(...)` or a returned value.
pub data Result (A : Type 0) : Type 0 where
  ok : A → Result A
  value_error : Result A

unfoldable pub coerce_positive_int : Option ℤ → ℕ → ℕ
coerce_positive_int none default = default
coerce_positive_int (some (pos n)) default = max 1 n
coerce_positive_int (some (negsuc n)) default = 1

-- `id` and `created_at` are the database's: its next primary key and its `func.now()`.
unfoldable pub create_task : ℕ → ℕ → TaskCreate → Table → Table × Task
unfolding coerce_positive_int
create_task id created_at task_in table =
    let task : Task = record {
      id = id;
      task_type = task_in.task_type;
      status = pending;
      priority = task_in.priority;
      progress = 0;
      total_items = 0;
      processed_items = 0;
      error_message = none;
      lease_owner = none;
      lease_until = none;
      heartbeat_at = none;
      attempt = 0;
      max_attempts = coerce_positive_int task_in.max_attempts 3;
      idempotency_key = task_in.idempotency_key;
      next_run_at = none;
      created_at = created_at;
      started_at = none;
      completed_at = none;
    } in
    (table ++ task ∷ [], task)

-- `or_(Task.next_run_at.is_(None), Task.next_run_at <= now)`
abbrev pub is_due : Option ℕ → ℕ → Bool
is_due none now = true
is_due (some at) now = leb at now

-- The filter of `claim_next_task`.
unfoldable pub claimable : ℕ → Task → Bool
claimable now t = is_leaseable t.status && is_due t.next_run_at now

-- `order_by(Task.created_at.asc(), Task.id.asc())`: `t` stands before `u`.
unfoldable pub earlier : Task → Task → Bool
earlier t u = ltb t.created_at u.created_at || t.created_at == u.created_at && ltb t.id u.id

-- The first row in that order.
unfoldable pub oldest : List Task → Option Task
unfolding earlier
oldest [] = none
oldest (t ∷ ts) = elim (oldest ts) [
  | none ↦ some t
  | some u ↦ if earlier u t then some u else some t
]

unfoldable pub claim_candidate : ℕ → Table → Option Task
claim_candidate now table = oldest (keep (claimable now) table)

-- The values of the UPDATE of `claim_next_task`.
unfoldable pub lease : String → ℕ → ℕ → Task → Task
lease owner lease_seconds now t = record t {
  status = leased;
  lease_owner = some owner;
  lease_until = some (now + seconds lease_seconds);
  heartbeat_at = some now;
  started_at = some now;
  attempt = t.attempt + 1;
}

-- From the UPDATE to the end of `claim_next_task`: it tests the row once more, and another session
-- may have written the table since the candidate was read.
unfoldable pub claim_commit : String → ℕ → ℕ → ℕ → Table → Table × Option Task
claim_commit owner lease_seconds now id table =
    let (table', updated) =
      update_where (λ t. (t.id == id) && claimable now t) (lease owner lease_seconds now) table in
    if updated == 1 then (table', get_task id table') else (table, none)

unfoldable pub claim_next_task : String → ℕ → ℕ → Table → Result (Table × Option Task)
claim_next_task owner lease_seconds now table =
    if str_eq owner "" then value_error else elim (claim_candidate now table) [
      | none ↦ ok (table, none)
      | some candidate ↦ ok (claim_commit owner lease_seconds now candidate.id table)
    ]

-- `Task.lease_owner == lease_owner`; NULL equals nothing.
abbrev pub is_owned_by : String → Task → Bool
is_owned_by owner t = elim t.lease_owner [ none ↦ false | some o ↦ str_eq o owner ]

unfoldable pub heartbeat_task : ℕ → String → ℕ → ℕ → Table → Table × Bool
heartbeat_task task_id owner lease_seconds now table =
    let (table', updated) =
      update_where (λ t. (t.id == task_id) && (is_owned_by owner t && is_active t.status))
        (λ t. record t {
          heartbeat_at = some now;
          lease_until = some (now + seconds lease_seconds);
        })
        table in
    (table', updated == 1)

-- `task.lease_owner = task.lease_until = task.heartbeat_at = None`
abbrev pub release : Task → Task
release t = record t { lease_owner = none; lease_until = none; heartbeat_at = none }

-- The filter of `recover_expired_leases`.
unfoldable pub lease_expired : ℕ → Task → Bool
lease_expired now t =
    (is_active t.status || is_cancel_requested t.status)
    && elim t.lease_until [ none ↦ false | some until ↦ leb until now ]

-- The body of its loop.
unfoldable pub recover_row : ℕ → Task → Task
recover_row now t = release (
    if is_cancel_requested t.status
    then record t {
      status = cancelled;
      completed_at = some now;
      error_message = some "Cancelled after worker lease expired";
    }
    else if leb (attempt_limit t) t.attempt
    then record t {
      status = failed;
      completed_at = some now;
      error_message = some "Task lease expired after max attempts";
    }
    else record t {
      status = retry_scheduled;
      next_run_at = some now;
      error_message = some "Task lease expired; retry scheduled";
    })

unfoldable pub recover_expired_leases : ℕ → Table → Table × ℕ
recover_expired_leases now table = update_where (lease_expired now) (recover_row now) table

-- `min(base_delay_seconds * (2 ** max(int(task.attempt or 1) - 1, 0)), max_delay_seconds)`
unfoldable pub retry_delay : ℕ → ℕ → ℕ → ℕ
retry_delay base most attempt = min (base * 2 ^ (or_default attempt 1 - 1)) most

-- The writes of `record_task_failure`.
unfoldable pub fail_row : String → ℕ → ℕ → ℕ → Task → Task
unfolding retry_delay
fail_row error_message now base most t =
    let written =
      if leb (attempt_limit t) t.attempt
      then record t { status = failed; completed_at = some now }
      else record t {
        status = retry_scheduled;
        next_run_at = some (now + seconds (retry_delay base most t.attempt));
      } in
    release (record written { error_message = some error_message })

unfoldable pub record_task_failure : ℕ → String → String → ℕ → ℕ → ℕ → Table → Table × Bool
record_task_failure task_id owner error_message now base most table =
    elim (get_task task_id table) [
      | none ↦ (table, false)
      | some t ↦
          if not (is_owned_by owner t) || is_terminal t.status
          then (table, false)
          else (modify task_id (fail_row error_message now base most) table, true)
    ]

-- The writes of `cancel_task`; `now` is its `datetime.now()`.
unfoldable pub cancel_row : ℕ → Task → Task
cancel_row now t =
    if is_active t.status
    then record t { status = cancel_requested; error_message = some "Cancel requested by user" }
    else if not (is_cancel_requested t.status)
    then record t {
      status = cancelled;
      completed_at = some now;
      error_message = some "Cancelled by user";
    }
    else t

unfoldable pub cancel_task : ℕ → ℕ → Table → Table × Bool
cancel_task task_id now table = elim (get_task task_id table) [
  | none ↦ (table, false)
  | some t ↦
      if is_terminal t.status then (table, false) else (modify task_id (cancel_row now) table, true)
]

unfoldable pub delete_task : ℕ → Table → Table × Bool
delete_task task_id table =
    if is_some (get_task task_id table) then (delete_row task_id table, true) else (table, false)
