-- ===== src/Tasks/Outcome.antt =====
-- How a run of a task ends.
use xzcccc_smart_media.Base.{
  ℕ, zero, suc, ◌+◌, ◌≡◌, refl, sym, ap, ◌∙◌, List, [], ◌∷◌, String, Bool, true, false, ◌||◌, ltb,
  if◌then◌else◌, arith, Bool-cases, inl, inr,
}
use xzcccc_smart_media.Tasks.Model.{
  Status, pending, leased, running, planning, reviewing, cancel_requested, retry_scheduled,
  completed, partial_success, failed, cancelled, is_terminal, is_leaseable, is_cancel_requested,
  Task,
}
use xzcccc_smart_media.Tasks.Worker.{plan, route, finish, runner_row, clear_row}
use xzcccc_smart_media.Tasks.Runner.{
  Pause, entered, planned, routed, attempt_begins, reported, attempt_ends, attempt_failed,
  in_cleanup, ServiceEnd, worked, raised, ServiceRun, Execution, executed, exhausted, interrupted,
  is_cancelled, update_progress, report_each, execute_attempts, after_execution, run_task,
  run_claimed_task,
}

-- A terminal status, or the request to cancel that is left as it is.
abbrev pub is_settled : Status → Bool
is_settled s = is_terminal s || is_cancel_requested s

is_cancelled-is_settled : (s : Status) → is_cancelled s ≡ true → is_settled s ≡ true
is_cancelled-is_settled pending e = ground (arith, e)
is_cancelled-is_settled leased e = ground (arith, e)
is_cancelled-is_settled running e = ground (arith, e)
is_cancelled-is_settled planning e = ground (arith, e)
is_cancelled-is_settled reviewing e = ground (arith, e)
is_cancelled-is_settled cancel_requested e = refl
is_cancelled-is_settled retry_scheduled e = ground (arith, e)
is_cancelled-is_settled completed e = refl
is_cancelled-is_settled partial_success e = refl
is_cancelled-is_settled failed e = refl
is_cancelled-is_settled cancelled e = refl

is_cancel_requested-eq : (s : Status) → is_cancel_requested s ≡ true → s ≡ cancel_requested
is_cancel_requested-eq pending e = ground (arith, e)
is_cancel_requested-eq leased e = ground (arith, e)
is_cancel_requested-eq running e = ground (arith, e)
is_cancel_requested-eq planning e = ground (arith, e)
is_cancel_requested-eq reviewing e = ground (arith, e)
is_cancel_requested-eq cancel_requested e = refl
is_cancel_requested-eq retry_scheduled e = ground (arith, e)
is_cancel_requested-eq completed e = ground (arith, e)
is_cancel_requested-eq partial_success e = ground (arith, e)
is_cancel_requested-eq failed e = ground (arith, e)
is_cancel_requested-eq cancelled e = ground (arith, e)

-- What the attempts come to by themselves: the first one that works decides, or else the last one.
unfoldable pub first_success : (ℕ → ServiceRun) → ℕ → ℕ → String → Execution
first_success service zero n last = exhausted last
first_success service (suc left) n last = elim (service n).service_end [
  | worked errors skipped ↦ executed errors skipped
  | raised message ↦ first_success service left (suc n) message
]

abbrev pub status_after : Execution → Status
status_after (executed errors skipped) =
    if ltb 0 errors || ltb 0 skipped then partial_success else completed
status_after (exhausted last) = failed
status_after interrupted = cancelled

finish-status :
    (errors skipped now : ℕ) (message : String) (t : Task)
    → (runner_row (finish errors skipped message) now t).status
      ≡ status_after (executed errors skipped)
unfolding runner_row
finish-status errors skipped now message t = ground arith

status_after-is_settled : (e : Execution) → is_settled (status_after e) ≡ true
status_after-is_settled (executed errors skipped) = ground arith
status_after-is_settled (exhausted last) = refl
status_after-is_settled interrupted = refl

module _ (others : Pause → Task → Task) (service : ℕ → ServiceRun) where
  after_execution-is_settled :
      (now : ℕ) (message : String) (t : Task) (e : Execution)
      → is_settled (after_execution others service now message t e).status ≡ true
  unfolding after_execution runner_row
  after_execution-is_settled now message t (executed errors skipped) =
      elim (Bool-cases (is_cancelled t.status)) [
        | inl found ↦ simp found (is_cancelled-is_settled t.status found)
        | inr going ↦ simp going (ground arith)
      ]
  after_execution-is_settled now message t (exhausted last) = refl
  after_execution-is_settled now message t interrupted = refl

  -- Whatever other transactions do to the row at the pauses, and however the attempts end: a run leaves
  -- its task in a terminal status, or with the request to cancel it.
  pub run_task-is_settled :
      (max_retries now : ℕ) (message : String) (t : Task)
      → is_settled (run_task others service max_retries now message t).status ≡ true
  unfolding run_task
  run_task-is_settled max_retries now message t =
      let t' = others entered (runner_row plan now t) in
      let t'' = others planned (record t' { progress = 10 }) in
      let t''' = others routed (runner_row route now t'') in
      let e = execute_attempts others service (max_retries + 1) 1 "" t''' in
      ground (
        arith,
        is_cancelled-is_settled t'.status,
        is_cancelled-is_settled t''.status,
        is_cancelled-is_settled t'''.status,
        after_execution-is_settled now message e.0 e.1,
      )

  -- A request to cancel that comes while the task is planned stops the run before anything is executed, and
  -- the row stays as it is: its status is the request still, so that it cannot be leased, and its lease is
  -- kept, also when the worker clears up after the run, provided that no one else changes the row then.
  pub run_claimed_task-requested :
      (owner : String) (max_retries now : ℕ) (message : String) (t : Task)
      → is_cancel_requested (others entered (runner_row plan now t)).status ≡ true
      → others in_cleanup (others entered (runner_row plan now t))
        ≡ others entered (runner_row plan now t)
      → (run_claimed_task others service owner max_retries now message t
          ≡ others entered (runner_row plan now t))
        × (is_leaseable (run_claimed_task others service owner max_retries now message t).status
            ≡ false)
  unfolding run_claimed_task run_task clear_row
  run_claimed_task-requested owner max_retries now message t requested alone =
      let t' = others entered (runner_row plan now t) in
      let e = is_cancel_requested-eq t'.status requested in
      let kept : run_claimed_task others service owner max_retries now message t ≡ t' =
        ground (arith, e, alone) in
      (kept, ap (λ (u : Task). is_leaseable u.status) kept ∙ ap is_leaseable e)

  -- The row after the reports of an attempt.
  abbrev after_reports : ℕ → Task → Task
  after_reports n t =
      (report_each others service n 0 (service n).reports (others (attempt_begins n) t)).0

  after_execution-status :
      (now : ℕ) (message : String) (t : Task) (e : Execution)
      → is_cancelled t.status ≡ false
      → (after_execution others service now message t e).status ≡ status_after e
  unfolding after_execution runner_row
  after_execution-status now message t (executed errors skipped) going = simp going (ground arith)
  after_execution-status now message t (exhausted last) going = refl
  after_execution-status now message t interrupted going = refl

  -- No one cancels the task.
  module _
      (undisturbed : (p : Pause) (t : Task)
        → is_cancelled (others p t).status ≡ is_cancelled t.status) where
    planned_lem :
        (now : ℕ) (t : Task) → is_cancelled (others entered (runner_row plan now t)).status ≡ false
    unfolding runner_row
    planned_lem now t = undisturbed entered (runner_row plan now t)

    routed_lem :
        (now : ℕ) (t : Task) → is_cancelled (others routed (runner_row route now t)).status ≡ false
    unfolding runner_row
    routed_lem now t = undisturbed routed (runner_row route now t)

    report_each-going :
        (n k : ℕ) (ps : List ℕ) (t : Task)
        → is_cancelled t.status ≡ false
        → ((report_each others service n k ps t).1 ≡ false)
          × (is_cancelled (report_each others service n k ps t).0.status ≡ false)
    unfolding report_each
    report_each-going n k [] t going = (refl, going)
    report_each-going n k (p ∷ ps) t going =
        let still : is_cancelled (others (reported n k) (update_progress p t)).status ≡ false =
          undisturbed (reported n k) (update_progress p t) ∙ going in
        rw (still, report_each)
          (report_each-going n (suc k) ps (others (reported n k) (update_progress p t)) still)

    execute_attempts-first_success :
        (left n : ℕ) (last : String) (t : Task)
        → is_cancelled t.status ≡ false
        → ((execute_attempts others service left n last t).1 ≡ first_success service left n last)
          × (is_cancelled (execute_attempts others service left n last t).0.status ≡ false)
    unfolding execute_attempts first_success
    execute_attempts-first_success zero n last t going = (refl, going)
    execute_attempts-first_success (suc left) n last t going =
        by_end
          (λ (message : String)
              (quiet : is_cancelled (others (attempt_failed n) (after_reports n t)).status ≡ false).
            execute_attempts-first_success left (suc n) message
              (others (attempt_failed n) (after_reports n t)) quiet)
          (service n).service_end refl
      where
        reports :
            ((report_each others service n 0 (service n).reports (others (attempt_begins n) t)).1
              ≡ false)
            × (is_cancelled (after_reports n t).status ≡ false)
        reports =
            report_each-going n 0 (service n).reports (others (attempt_begins n) t)
              (undisturbed (attempt_begins n) t ∙ going)

        by_end :
            ((message : String)
              → is_cancelled (others (attempt_failed n) (after_reports n t)).status ≡ false
              → ((execute_attempts others service left
                    (suc n)
                    message
                    (others (attempt_failed n) (after_reports n t))).1
                  ≡ first_success service left (suc n) message)
                × (is_cancelled
                      (execute_attempts others service left
                        (suc n)
                        message
                        (others (attempt_failed n) (after_reports n t))).0.status
                    ≡ false))
            → (e : ServiceEnd) → (service n).service_end ≡ e
            → ((execute_attempts others service (suc left) n last t).1
                ≡ first_success service (suc left) n last)
              × (is_cancelled (execute_attempts others service (suc left) n last t).0.status
                  ≡ false)
        by_end ih (worked errors skipped) e =
            let quiet = undisturbed (attempt_ends n) (after_reports n t) ∙ reports.1 in
            let spec : first_success service (suc left) n last ≡ executed errors skipped =
              ground (arith, e) in
            rw (reports.0, execute_attempts) (rw e (sym spec, quiet))
        by_end ih (raised message) e =
            let quiet = undisturbed (attempt_failed n) (after_reports n t) ∙ reports.1 in
            let spec : first_success service (suc left) n last
                ≡ first_success service left (suc n) message =
              ground (arith, e) in
            let rest = ih message quiet in
            rw (reports.0, execute_attempts) (rw e (rest.0 ∙ sym spec, rest.1))

    -- No one's change of the row touches whether the task is cancelled. Then the first attempt that works
    -- decides, of those that the retries allow: the task ends as completed, or as a partial success where
    -- the service counted errors or skipped items; and it ends as failed when every attempt raises.
    pub run_task-first_success :
        (max_retries now : ℕ) (message : String) (t : Task)
        → (run_task others service max_retries now message t).status
          ≡ status_after (first_success service (max_retries + 1) 1 "")
    unfolding run_task
    run_task-first_success max_retries now message t =
        let t1 = others entered (runner_row plan now t) in
        let t2 = others planned (record t1 { progress = 10 }) in
        let t3 = others routed (runner_row route now t2) in
        let one = planned_lem now t in
        let two : is_cancelled t2.status ≡ false =
          undisturbed planned (record t1 { progress = 10 }) ∙ one in
        let three = routed_lem now t2 in
        let (same, four) = execute_attempts-first_success (max_retries + 1) 1 "" t3 three in
        let e = execute_attempts others service (max_retries + 1) 1 "" t3 in
        rw one (
          rw two
            (rw three (after_execution-status now message e.0 e.1 four ∙ ap status_after same)))
