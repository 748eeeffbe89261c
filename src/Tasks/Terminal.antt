-- ===== src/Tasks/Terminal.antt =====
-- The operations of `TaskService` in task_queue.py, and a row whose task is over.
use xzcccc_smart_media.Base.{
  seconds, ℕ, ◌+◌, ◌≡◌, refl, String, [], ◌∷◌, ◌++◌, Bool, true, false, if◌then◌else◌, ◌&&◌, none,
  some, ◌==◌, arith, ◌∙◌,
}
use xzcccc_smart_media.Tasks.Model.{is_terminal, is_active, Task, TaskCreate}
use xzcccc_smart_media.Tasks.Table.{
  Table, get_task, delete_row, get_task-modify_ne, get_task-update_where,
}
use xzcccc_smart_media.Tasks.Queue.{
  claimable, lease, claim_commit, is_owned_by, heartbeat_task, lease_expired, recover_row,
  recover_expired_leases, fail_row, record_task_failure, cancel_row, cancel_task, create_task,
  delete_task,
}
use xzcccc_smart_media.Tasks.Recovery.{fail_row-id, cancel_row-id, recover_row-id}

-- The operations of `TaskService` that change the table: who calls them, and what with.
pub data Request : Type 0 where
  heartbeat : ℕ → String → ℕ → Request
  report : ℕ → String → String → ℕ → ℕ → Request
  cancel : ℕ → Request
  claim : ℕ → String → ℕ → Request
  recover : Request
  create : ℕ → ℕ → TaskCreate → Request
  delete : ℕ → Request

unfoldable pub serve : Request → ℕ → Table → Table
serve (heartbeat id owner secs) now table = (heartbeat_task id owner secs now table).0
serve (report id owner message base most) now table =
    (record_task_failure id owner message now base most table).0
serve (cancel id) now table = (cancel_task id now table).0
serve (claim id owner secs) now table = (claim_commit owner secs now id table).0
serve recover now table = (recover_expired_leases now table).0
serve (create id created_at task_in) now table = (create_task id created_at task_in table).0
serve (delete id) now table = (delete_task id table).0

-- A deletion of the task with an id.
abbrev pub deletes : ℕ → Request → Bool
deletes i (delete id) = id == i
deletes i (heartbeat id owner secs) = false
deletes i (report id owner message base most) = false
deletes i (cancel id) = false
deletes i (claim id owner secs) = false
deletes i recover = false
deletes i (create id created_at task_in) = false

get_task-delete_row :
    (i id : ℕ) (table : Table)
    → get_task i (delete_row id table) ≡ (if id == i then none else get_task i table)
unfolding get_task delete_row
get_task-delete_row i id [] = ground arith
get_task-delete_row i id (t ∷ ts) = ground (arith, get_task-delete_row i id ts)

get_task-append :
    (i : ℕ) (t u : Task) (table : Table)
    → get_task i table ≡ some t
    → get_task i (table ++ u ∷ []) ≡ some t
unfolding get_task
get_task-append i t u [] found = ground (arith, found)
get_task-append i t u (v ∷ ts) found = ground (arith, found, get_task-append i t u ts)

-- A request to `TaskService`, for this task or another one, is one of these: a heartbeat, a failure
-- report, a cancellation, the commit of a claim, a recovery, the creation of a task, or a deletion. A row
-- in a terminal state is gone after a deletion of this task, and stays as it is after any other request.
pub serve-terminal :
    (r : Request) (now i : ℕ) (table : Table) (t : Task)
    → get_task i table ≡ some t
    → is_terminal t.status ≡ true
    → get_task i (serve r now table) ≡ (if deletes i r then none else some t)
unfolding serve
serve-terminal (heartbeat id owner secs) now i table t found over =
    unfold heartbeat_task in
    get_task-update_where (λ v. (v.id == id) && (is_owned_by owner v && is_active v.status))
      (λ v. record v { heartbeat_at = some now; lease_until = some (now + seconds secs) })
      (λ v. refl) i t table found
    ∙ ground arith
serve-terminal (report id owner message base most) now i table t found over =
    unfold record_task_failure in
    ground (
      arith,
      get_task-modify_ne i id (fail_row message now base most) table
          (fail_row-id message now base most),
    )
serve-terminal (cancel id) now i table t found over =
    unfold cancel_task in
    ground (arith, get_task-modify_ne i id (cancel_row now) table (cancel_row-id now))
serve-terminal (claim id owner secs) now i table t found over =
    unfold claim_commit lease claimable in
    ground (
      arith,
      get_task-update_where (λ v. (v.id == id) && claimable now v) (lease owner secs now)
          (λ v. refl) i t table found,
    )
serve-terminal recover now i table t found over =
    unfold recover_expired_leases lease_expired in
    get_task-update_where (lease_expired now) (recover_row now) (recover_row-id now) i t table found
    ∙ ground arith
serve-terminal (create id created_at task_in) now i table t found over =
    unfold create_task in get_task-append i t _ table found
serve-terminal (delete id) now i table t found over =
    unfold delete_task in ground (arith, get_task-delete_row i id table, found)
