-- ===== src/Tasks/Tests.antt =====
-- Concrete tables: the theorems of the task queue at inputs that meet their hypotheses, and runs.
use xzcccc_smart_media.Base.{
  ℕ, ◌≡◌, refl, List, [], ◌∷◌, true, false, ◌==◌, if◌then◌else◌, none, some, keep,
}
use xzcccc_smart_media.Tasks.Model.{
  Task, pos, pending, failed, cancel_requested, leased, completed, retry_scheduled, partial_success,
  is_leaseable,
}
use xzcccc_smart_media.Tasks.Runner.{
  Pause, entered, planned, routed, attempt_begins, reported, attempt_ends, attempt_failed,
  in_review, in_cleanup, worked, raised, ServiceRun, report_each, execute_attempts, after_execution,
  run_task, run_claimed_task,
}
use xzcccc_smart_media.Tasks.Outcome.{
  is_settled, first_success, status_after, run_task-is_settled, run_claimed_task-requested,
  run_task-first_success,
}
use xzcccc_smart_media.Tasks.Table.{Table, get_task, modify, update_where, delete_row}
use xzcccc_smart_media.Tasks.Queue.{
  ok, coerce_positive_int, create_task, claimable, oldest, claim_candidate, lease, claim_commit,
  claim_next_task, heartbeat_task, lease_expired, recover_row, recover_expired_leases, retry_delay,
  fail_row, record_task_failure, cancel_row, cancel_task, delete_task,
}
use xzcccc_smart_media.Tasks.Worker.{
  clear_row, clear_finished_lease, runner_row, runner_write, plan,
}
use xzcccc_smart_media.Tasks.Claim.{ClaimSpec, claim_next_task-ClaimSpec, claim_commit_once}
use xzcccc_smart_media.Tasks.Attempts.{Action, RowInv, perform, run, run-RowInv}
use xzcccc_smart_media.Tasks.Recovery.{recover-shuts_out}
use xzcccc_smart_media.Tasks.Terminal.{Request, serve, serve-terminal}

program : Unit {0}
unfolding get_task modify update_where delete_row coerce_positive_int create_task claimable oldest
    claim_candidate lease claim_commit claim_next_task heartbeat_task lease_expired recover_row
    recover_expired_leases retry_delay fail_row record_task_failure cancel_row cancel_task
    delete_task clear_row clear_finished_lease runner_row runner_write perform run serve keep
program = tt

abbrev fresh : Task
fresh = record {
  id = 1;
  task_type = "scrape";
  status = pending;
  priority = "normal";
  progress = 0;
  total_items = 0;
  processed_items = 0;
  error_message = none;
  lease_owner = none;
  lease_until = none;
  heartbeat_at = none;
  attempt = 0;
  max_attempts = 3;
  idempotency_key = none;
  next_run_at = none;
  created_at = 100;
  started_at = none;
  completed_at = none;
}

abbrev retried : Task
retried = record fresh {
  id = 2;
  status = retry_scheduled;
  attempt = 1;
  next_run_at = some 400;
  created_at = 50;
}

abbrev held : Task
held = record fresh {
  status = leased;
  attempt = 1;
  lease_owner = some "w1";
  lease_until = some 300000500;
  heartbeat_at = some 500;
  started_at = some 500;
}

abbrev table : Table
table = fresh ∷ retried ∷ []

abbrev held_table : Table
held_table = held ∷ retried ∷ []

-- The older task is due at 500, and not yet at 300.
claims_older :
    claim_next_task "w1" 300 500 table
    ≡ ok (fresh ∷ lease "w1" 300 500 retried ∷ [], some (lease "w1" 300 500 retried))
unfolding program
claims_older = refl

claims_due :
    claim_next_task "w1" 300 300 table
    ≡ ok (lease "w1" 300 300 fresh ∷ retried ∷ [], some (lease "w1" 300 300 fresh))
unfolding program
claims_due = refl

claim_next_task-ClaimSpec_example : ClaimSpec "w1" 300 500 table
unfolding program
claim_next_task-ClaimSpec_example =
    claim_next_task-ClaimSpec "w1" 300 500 table (refl, (refl, tt)) refl

claim_commit_once_example : claim_commit "w2" 300 501 1 held_table ≡ (held_table, none)
unfolding program
claim_commit_once_example =
    claim_commit_once "w1" "w2" 300 500 300 501 1 table held_table held (refl, (refl, tt)) refl

abbrev script : List Action
script =
    Action.create 1 100 (record {
      task_type = "scrape";
      priority = "normal";
      max_attempts = some (pos 1);
      idempotency_key = none;
    })
    ∷ Action.claim "w1" 300 500
    ∷ Action.run_stage plan 1 501
    ∷ Action.recover 300000500
    ∷ Action.commit_claim "w2" 300 300000600 1
    ∷ []

abbrev exhausted : Task
exhausted = record fresh {
  status = failed;
  progress = 3;
  attempt = 1;
  max_attempts = 1;
  error_message = some "Task lease expired after max attempts";
  started_at = some 501;
  completed_at = some 300000500;
}

script_fails : run script [] ≡ exhausted ∷ []
unfolding program
script_fails = refl

run-RowInv_example : RowInv exhausted
unfolding program
run-RowInv_example = run-RowInv script 1 exhausted refl

abbrev lapsed : Table
lapsed =
    record fresh {
      status = retry_scheduled;
      attempt = 1;
      next_run_at = some 300000500;
      error_message = some "Task lease expired; retry scheduled";
      started_at = some 500;
    }
    ∷ retried
    ∷ []

recovers : recover_expired_leases 300000500 held_table ≡ (lapsed, 1)
unfolding program
recovers = refl

recover-shuts_out_example :
    (heartbeat_task 1 "w1" 300 300000501 lapsed ≡ (lapsed, false))
    × (record_task_failure 1 "w1" "boom" 300000501 30 3600 lapsed ≡ (lapsed, false))
unfolding program
recover-shuts_out_example =
    recover-shuts_out 300000500 "w1" "boom" 300 300000501 30 3600 1 held_table held
      (refl, (refl, tt)) refl refl

abbrev asked : Table
asked =
    record held { status = cancel_requested; error_message = some "Cancel requested by user" }
    ∷ retried
    ∷ []

abbrev done : Task
done = record fresh { status = completed; attempt = 1; progress = 100 }

serve-terminal_example :
    get_task 1 (serve (Request.claim 1 "w2" 300) 700 (done ∷ retried ∷ [])) ≡ some done
unfolding program
serve-terminal_example =
    serve-terminal (Request.claim 1 "w2" 300) 700 1 (done ∷ retried ∷ []) done refl refl

-- Others leave the row alone, or ask for the task's end while it is planned.
abbrev alone : Pause → Task → Task
alone p t = t

abbrev asks : Pause → Task → Task
asks entered t = record t { status = cancel_requested }
asks planned t = t
asks routed t = t
asks (attempt_begins n) t = t
asks (reported n k) t = t
asks (attempt_ends n) t = t
asks (attempt_failed n) t = t
asks in_review t = t
asks in_cleanup t = t

-- The first attempt raises, the others work and skip an item.
abbrev second_works : ℕ → ServiceRun
second_works n = record {
  reports = 40 ∷ 95 ∷ [];
  service_end = if n == 1 then raised "timeout" else worked 0 1;
}

run_task-is_settled_example :
    is_settled (run_task asks second_works 2 900 "partly" held).status ≡ true
run_task-is_settled_example = run_task-is_settled asks second_works 2 900 "partly" held

run_claimed_task-requested_example :
    (run_claimed_task asks second_works "w1" 2 900 "partly" held
      ≡ asks entered (runner_row plan 900 held))
    × (is_leaseable (run_claimed_task asks second_works "w1" 2 900 "partly" held).status ≡ false)
run_claimed_task-requested_example =
    run_claimed_task-requested asks second_works "w1" 2 900 "partly" held refl refl

run_task-first_success_example :
    (run_task alone second_works 2 900 "partly" held).status
    ≡ status_after (first_success second_works 3 1 "")
run_task-first_success_example =
    run_task-first_success alone second_works (λ p t. refl) 2 900 "partly" held

second_attempt : (run_task alone second_works 2 900 "partly" held).status ≡ partial_success
unfolding run_task runner_row execute_attempts report_each after_execution
second_attempt = refl
