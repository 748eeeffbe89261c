-- ===== src/Tasks/Runner.antt =====
-- `run_task` of app/services/platform/task_runner.py, and `_run_claimed_task` of task_worker.py, on the
-- row of the task. At each pause other transactions may change the row, and the writes change their own
-- columns of what is there then. What the service of a task does is a parameter; logs and messages go
-- through, and the simulated work for other types of tasks is left out.
use xzcccc_smart_media.Base.{
  ℕ, zero, suc, ◌+◌, List, [], ◌∷◌, String, Bool, true, false, min, max, if◌then◌else◌,
}
use xzcccc_smart_media.Tasks.Model.{Status, cancelled, is_cancel_requested, Task}
use xzcccc_smart_media.Tasks.Worker.{
  plan, route, review, finish, abort, crash, runner_row, clear_row,
}
use xzcccc_smart_media.Tasks.Queue.{is_owned_by}

-- The waits of a run: the n-th attempt, and the k-th progress that it reports.
pub data Pause : Type 0 where
  entered : Pause
  planned : Pause
  routed : Pause
  attempt_begins : ℕ → Pause
  reported : ℕ → ℕ → Pause
  attempt_ends : ℕ → Pause
  attempt_failed : ℕ → Pause
  in_review : Pause
  in_cleanup : Pause

-- How the service ends: with its numbers of errors and of skipped items, or with an exception.
pub data ServiceEnd : Type 0 where
  worked : ℕ → ℕ → ServiceEnd
  raised : String → ServiceEnd

pub record ServiceRun : Type 0 where
  pub reports : List ℕ
  pub service_end : ServiceEnd

-- What the attempts come to.
pub data Execution : Type 0 where
  executed : ℕ → ℕ → Execution
  exhausted : String → Execution
  interrupted : Execution

abbrev pub is_cancelled : Status → Bool
is_cancelled cancelled = true
is_cancelled s = is_cancel_requested s

-- `task.progress = max(task.progress or 0, min(90, progress))`
abbrev pub update_progress : ℕ → Task → Task
update_progress progress t = record t { progress = max t.progress (min 90 progress) }

module _ (others : Pause → Task → Task) (service : ℕ → ServiceRun) where
  -- The reports of an attempt, and whether one of them found the task cancelled.
  unfoldable pub report_each : ℕ → ℕ → List ℕ → Task → Task × Bool
  report_each n k [] t = (t, false)
  report_each n k (p ∷ ps) t =
      let t' = others (reported n k) (update_progress p t) in
      let rest = report_each n (suc k) ps t' in if is_cancelled t'.status then (t', true) else rest

  -- The attempts that are left, the number of the next one, and the last exception.
  unfoldable pub execute_attempts : ℕ → ℕ → String → Task → Task × Execution
  execute_attempts zero n last t = (t, exhausted last)
  execute_attempts (suc left) n last t =
      let (t', found) = report_each n 0 (service n).reports (others (attempt_begins n) t) in
      elim found [
        | true ↦ (t', interrupted)
        | false ↦ elim (service n).service_end [
          | worked errors skipped ↦ (others (attempt_ends n) t', executed errors skipped)
          | raised message ↦ execute_attempts left (suc n) message (others (attempt_failed n) t')
        ]
      ]

  -- What follows the attempts: `message` is the text of a partial success.
  unfoldable pub after_execution : ℕ → String → Task → Execution → Task
  after_execution now message t (executed errors skipped) =
      if is_cancelled t.status
      then t
      else runner_row (finish errors skipped message) now
          (others in_review (runner_row review now t))
  after_execution now message t (exhausted last) = runner_row (crash last) now t
  after_execution now message t interrupted = runner_row abort now t

  -- `run_task` on the row of its task, with one time for the whole run
  unfoldable pub run_task : ℕ → ℕ → String → Task → Task
  run_task max_retries now message t =
      let t' = others entered (runner_row plan now t) in
      let t'' = others planned (record t' { progress = 10 }) in
      let t''' = others routed (runner_row route now t'') in
      let (worked_on, execution) = execute_attempts (max_retries + 1) 1 "" t''' in
      if is_cancelled t'.status
      then t'
      else if is_cancelled t''.status
      then t''
      else if is_cancelled t'''.status
      then t'''
      else after_execution now message worked_on execution

  -- `_run_claimed_task`: the run, and then the worker's clearing of the lease where it is still its own.
  unfoldable pub run_claimed_task : String → ℕ → ℕ → String → Task → Task
  run_claimed_task owner max_retries now message t =
      let done = others in_cleanup (run_task max_retries now message t) in
      if is_owned_by owner done then clear_row now done else done
