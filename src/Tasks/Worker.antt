-- ===== src/Tasks/Worker.antt =====
-- app/services/platform/task_worker.py, `_clear_finished_lease`, and the writes to `status` of
-- `run_task` in task_runner.py.
use xzcccc_smart_media.Base.{
  seconds, ℕ, ◌+◌, String, not, ◌&&◌, ◌||◌, none, some, ltb, if◌then◌else◌,
}
use xzcccc_smart_media.Tasks.Model.{
  planning, running, reviewing, retry_scheduled, partial_success, completed, failed, cancelled,
  is_terminal, is_failed, Task, attempt_limit,
}
use xzcccc_smart_media.Tasks.Table.{Table, get_task, modify}
use xzcccc_smart_media.Tasks.Queue.{retry_delay, release, is_owned_by}

-- What `_clear_finished_lease` writes to a row of the worker's own; a row in another state stays.
unfoldable pub clear_row : ℕ → Task → Task
unfolding retry_delay
clear_row now t =
    if is_failed t.status && ltb t.attempt (attempt_limit t)
    then release (record t {
      status = retry_scheduled;
      next_run_at = some (now + seconds (retry_delay 30 3600 t.attempt));
    })
    else if is_terminal t.status
    then release t
    else t

unfoldable pub clear_finished_lease : String → ℕ → ℕ → Table → Table
clear_finished_lease owner task_id now table = elim (get_task task_id table) [
  | none ↦ table
  | some t ↦ if not (is_owned_by owner t) then table else modify task_id (clear_row now) table
]

-- The places where `run_task` writes the status of its task. `finish` has the numbers of errors and
-- of skipped items, and the text that says them.
pub data Stage : Type 0 where
  plan : Stage
  route : Stage
  review : Stage
  finish : ℕ → ℕ → String → Stage
  abort : Stage
  crash : String → Stage

unfoldable pub runner_row : Stage → ℕ → Task → Task
runner_row plan now t = record t { started_at = some now; status = planning; progress = 3 }
runner_row route now t = record t { status = running; progress = 15 }
runner_row review now t = record t { status = reviewing; progress = 95 }
runner_row (finish errors skipped message) now t =
    let reviewed : Task =
      if ltb 0 errors || ltb 0 skipped
      then record t { status = partial_success; error_message = some message }
      else record t { status = completed; error_message = none } in
    record reviewed { completed_at = some now; progress = 100 }
runner_row abort now t = record t {
  status = cancelled;
  completed_at = some now;
  error_message = some "Cancelled by user";
}
runner_row (crash message) now t = record t {
  status = failed;
  error_message = some message;
  completed_at = some now;
}

unfoldable pub runner_write : Stage → ℕ → ℕ → Table → Table
runner_write stage task_id now table = modify task_id (runner_row stage now) table
