-- ===== src/Tasks/Attempts.antt =====
-- What holds of every row, whatever the users, the workers and the runner do to the table.
use xzcccc_smart_media.Base.{
  ℕ, ◌≤◌, ◌<◌, ◌≡◌, String, List, [], ◌∷◌, Bool, true, Option, none, some, arith, Bool-cases,
  Option-cases, inl, inr, ◌⊎◌, All, All-append, str_eq, ◌&&◌, ◌==◌,
}
use xzcccc_smart_media.Tasks.Model.{is_leaseable, Task, TaskCreate, attempt_limit}
use xzcccc_smart_media.Tasks.Table.{
  Table, get_task, modify, All-modify, All-update_where, All-delete_row, All-get_task, update_where,
  delete_row,
}
use xzcccc_smart_media.Tasks.Queue.{
  Result, ok, value_error, create_task, claimable, claim_candidate, lease, claim_commit,
  claim_next_task, heartbeat_task, recover_row, recover_expired_leases, fail_row,
  record_task_failure, cancel_row, cancel_task, delete_task,
}
use xzcccc_smart_media.Tasks.Worker.{
  clear_row, clear_finished_lease, Stage, plan, runner_row, runner_write,
}

-- A task that may be leased has no owner and an attempt left; no task has more attempts than its
-- limit.
pub record RowInv (t : Task) : Type 0 where
  pub unowned : is_leaseable t.status ≡ true → t.lease_owner ≡ none
  pub retryable : is_leaseable t.status ≡ true → t.attempt < attempt_limit t
  pub bounded : t.attempt ≤ attempt_limit t

abbrev pub TableInv : Table → Type 0
TableInv = All RowInv

-- One transaction of a user, of a worker or of the runner. `commit_claim` is the second half of a
-- claim alone, with a candidate that was read at any time before.
pub data Action : Type 0 where
  create : ℕ → ℕ → TaskCreate → Action
  claim : String → ℕ → ℕ → Action
  commit_claim : String → ℕ → ℕ → ℕ → Action
  heartbeat : ℕ → String → ℕ → ℕ → Action
  recover : ℕ → Action
  report_failure : ℕ → String → String → ℕ → ℕ → ℕ → Action
  cancel : ℕ → ℕ → Action
  delete : ℕ → Action
  clear_lease : String → ℕ → ℕ → Action
  run_stage : Stage → ℕ → ℕ → Action

-- The table after a claim: a ValueError leaves it.
abbrev pub after_claim : Table → Result (Table × Option Task) → Table
after_claim table (ok (table', _)) = table'
after_claim table value_error = table

unfoldable pub perform : Action → Table → Table
perform (create id created_at task_in) table = (create_task id created_at task_in table).0
perform (claim owner secs now) table = after_claim table (claim_next_task owner secs now table)
perform (commit_claim owner secs now id) table = (claim_commit owner secs now id table).0
perform (heartbeat id owner secs now) table = (heartbeat_task id owner secs now table).0
perform (recover now) table = (recover_expired_leases now table).0
perform (report_failure id owner message now base most) table =
    (record_task_failure id owner message now base most table).0
perform (cancel id now) table = (cancel_task id now table).0
perform (delete id) table = (delete_task id table).0
perform (clear_lease owner id now) table = clear_finished_lease owner id now table
perform (run_stage stage id now) table = runner_write stage id now table

unfoldable pub run : List Action → Table → Table
run [] table = table
run (a ∷ rest) table = run rest (perform a table)

lease-RowInv :
    (owner : String) (secs now : ℕ) (t : Task)
    → claimable now t ≡ true
    → RowInv t
    → RowInv (lease owner secs now t)
unfolding lease claimable
lease-RowInv owner secs now t c h = ground arith

recover_row-RowInv : (now : ℕ) (t : Task) → RowInv t → RowInv (recover_row now t)
unfolding recover_row
recover_row-RowInv now t h = ground arith

fail_row-RowInv :
    (message : String) (now base most : ℕ) (t : Task)
    → RowInv t
    → RowInv (fail_row message now base most t)
unfolding fail_row
fail_row-RowInv message now base most t h = ground arith

cancel_row-RowInv : (now : ℕ) (t : Task) → RowInv t → RowInv (cancel_row now t)
unfolding cancel_row
cancel_row-RowInv now t h = ground arith

clear_row-RowInv : (now : ℕ) (t : Task) → RowInv t → RowInv (clear_row now t)
unfolding clear_row
clear_row-RowInv now t h = ground arith

runner_row-RowInv :
    (stage : Stage) (now : ℕ) (t : Task) → RowInv t → RowInv (runner_row stage now t)
unfolding runner_row
runner_row-RowInv plan now t h = ground arith
runner_row-RowInv _ now t h = ground arith

create_task-RowInv :
    (id created_at : ℕ) (task_in : TaskCreate) (table : Table)
    → RowInv (create_task id created_at task_in table).1
unfolding create_task
create_task-RowInv id created_at task_in table = ground arith

claim_commit-TableInv :
    (owner : String) (secs now id : ℕ) (table : Table)
    → TableInv table
    → TableInv (claim_commit owner secs now id table).0
unfolding claim_commit
claim_commit-TableInv owner secs now id table h =
    let p : Task → Bool = λ t. (t.id == id) && claimable now t in
    let f = lease owner secs now in
    let kept : TableInv (update_where p f table).0 =
      All-update_where RowInv p f (λ t e. lease-RowInv owner secs now t (ground arith)) table h in
    elim (Bool-cases ((update_where p f table).1 == 1)) [
      | inl one ↦ rw one kept
      | inr other ↦ rw other h
    ]

claim_next_task-TableInv :
    (owner : String) (secs now : ℕ) (table : Table)
    → TableInv table
    → TableInv (after_claim table (claim_next_task owner secs now table))
unfolding claim_next_task
claim_next_task-TableInv owner secs now table h = elim (Bool-cases (str_eq owner "")) [
  | inl e ↦ rw e h
  | inr e ↦ rw e (elim (Option-cases (claim_candidate now table)) [
    | inl gone ↦ rw gone h
    | inr (c, found) ↦ rw found (claim_commit-TableInv owner secs now c.id table h)
  ])
]

-- An operation that leaves the table or replaces it by one that has the invariant.
TableInv-either :
    (after table table' : Table)
    → (after ≡ table) ⊎ (after ≡ table')
    → TableInv table
    → TableInv table'
    → TableInv after
TableInv-either after table table' (inl e) h h' = rw e h
TableInv-either after table table' (inr e) h h' = rw e h'

heartbeat-TableInv :
    (id : ℕ) (owner : String) (secs now : ℕ) (table : Table)
    → TableInv table
    → TableInv (heartbeat_task id owner secs now table).0
unfolding heartbeat_task
heartbeat-TableInv id owner secs now table h =
    All-update_where RowInv _ _
      (λ t e r. record { unowned = r.unowned; retryable = r.retryable; bounded = r.bounded }) table
      h

report-TableInv :
    (id : ℕ) (owner message : String) (now base most : ℕ) (table : Table)
    → TableInv table
    → TableInv (record_task_failure id owner message now base most table).0
unfolding record_task_failure
report-TableInv id owner message now base most table h =
    TableInv-either _ table (modify id (fail_row message now base most) table) (ground arith) h
      (All-modify RowInv id _ (fail_row-RowInv message now base most) table h)

cancel-TableInv :
    (id now : ℕ) (table : Table) → TableInv table → TableInv (cancel_task id now table).0
unfolding cancel_task
cancel-TableInv id now table h =
    TableInv-either _ table (modify id (cancel_row now) table) (ground arith) h
      (All-modify RowInv id _ (cancel_row-RowInv now) table h)

clear-TableInv :
    (owner : String) (id now : ℕ) (table : Table)
    → TableInv table
    → TableInv (clear_finished_lease owner id now table)
unfolding clear_finished_lease
clear-TableInv owner id now table h =
    TableInv-either _ table (modify id (clear_row now) table) (ground arith) h
      (All-modify RowInv id _ (clear_row-RowInv now) table h)

delete-TableInv : (id : ℕ) (table : Table) → TableInv table → TableInv (delete_task id table).0
unfolding delete_task
delete-TableInv id table h =
    TableInv-either _ table (delete_row id table) (ground arith) h
      (All-delete_row RowInv id table h)

-- Every transaction keeps the invariant of every row.
pub perform-TableInv : (a : Action) (table : Table) → TableInv table → TableInv (perform a table)
unfolding perform
perform-TableInv (create id created_at task_in) table h =
    unfold create_task in
    All-append RowInv table _ h (create_task-RowInv id created_at task_in table, tt)
perform-TableInv (claim owner secs now) table h = claim_next_task-TableInv owner secs now table h
perform-TableInv (commit_claim owner secs now id) table h =
    claim_commit-TableInv owner secs now id table h
perform-TableInv (heartbeat id owner secs now) table h =
    heartbeat-TableInv id owner secs now table h
perform-TableInv (recover now) table h =
    unfold recover_expired_leases in
    All-update_where RowInv _ _ (λ t e. recover_row-RowInv now t) table h
perform-TableInv (report_failure id owner message now base most) table h =
    report-TableInv id owner message now base most table h
perform-TableInv (cancel id now) table h = cancel-TableInv id now table h
perform-TableInv (delete id) table h = delete-TableInv id table h
perform-TableInv (clear_lease owner id now) table h = clear-TableInv owner id now table h
perform-TableInv (run_stage stage id now) table h =
    unfold runner_write in All-modify RowInv id _ (runner_row-RowInv stage now) table h

pub run-TableInv :
    (actions : List Action) (table : Table) → TableInv table → TableInv (run actions table)
unfolding run
run-TableInv [] table h = h
run-TableInv (a ∷ rest) table h = run-TableInv rest (perform a table) (perform-TableInv a table h)

-- From an empty table, after any transactions in any order, with stale claims and runner writes
-- among them: a row that may be leased has no owner and an attempt left, and no row has more
-- attempts than its limit, `max_attempts` or 1.
pub run-RowInv :
    (actions : List Action) (id : ℕ) (t : Task) → get_task id (run actions []) ≡ some t → RowInv t
run-RowInv actions id t found =
    All-get_task RowInv id t (run actions []) (run-TableInv actions [] tt) found
