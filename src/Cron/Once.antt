-- ===== src/Cron/Once.antt =====
-- A task is in the queue or executed once at a time.
use xzcccc_smart_media.Base.{
  ◌≤◌, ◌≡◌, refl, [], ◌∷◌, ◌++◌, List, true, length, arith, Bool-cases, inl, inr,
}
use mathlib.Core.Path.{subst}
use xzcccc_smart_media.Cron.Service.{
  Worker, no_worker, idle, executing, ended, CronService, register_cron_handler, new_service,
  add_cron_task, task_id_or, stop_cron, CronEvent, register_event, start_event, add_event,
  take_event, finish_event, stop_event, step, run_events, may_come, no_start_in_stop,
}
use xzcccc_smart_media.Cron.Coherent.{
  Distinct, ids, executed_ids, run_by, IsCoherent, enqueue-IsCoherent, start_cron-IsCoherent,
  take_task-IsCoherent, finish_task-IsCoherent,
}

module _ {P R : Type 0} where
  stop_cron-IsCoherent : (s : CronService P R) → IsCoherent s → IsCoherent (stop_cron s)
  unfolding stop_cron
  stop_cron-IsCoherent s h = elim (Bool-cases s.service_running) [
    | inr off ↦ simp off h
    | inl on ↦ by_worker s.worker refl on
  ]
    where
      by_worker :
          (w : Worker P R) → s.worker ≡ w → s.service_running ≡ true → IsCoherent (stop_cron s)
      by_worker no_worker e on =
          ground (arith, on, e, h.tracked, h.once, h.runs, h.bound, h.hundred)
      by_worker idle e on = ground (arith, on, e, h.tracked, h.once, h.runs, h.bound, h.hundred)
      by_worker ended e on = ground (arith, on, e, h.tracked, h.once, h.runs, h.bound, h.hundred)
      by_worker (executing task) e on =
          ground (arith, on, e, h.tracked, h.once, h.runs, h.bound, h.hundred)

  pub step-IsCoherent :
      (x : CronEvent P R) (s : CronService P R)
      → may_come x s ≡ true
      → IsCoherent s
      → IsCoherent (step x s)
  unfolding step register_cron_handler add_cron_task stop_cron
  step-IsCoherent (register_event t k) s free h =
      ground (arith, h.tracked, h.once, h.runs, h.bound, h.hundred)
  step-IsCoherent (start_event l) s free h = start_cron-IsCoherent l s free h
  step-IsCoherent (add_event now t id stamp params) s free h =
      enqueue-IsCoherent now t (task_id_or t id stamp) params s h
  step-IsCoherent (take_event now) s free h = by_worker s.worker refl
    where
      by_worker : (w : Worker P R) → s.worker ≡ w → IsCoherent (step (take_event now) s)
      by_worker no_worker e = rw (e, step) h
      by_worker idle e = rw (e, step) (take_task-IsCoherent now s e h)
      by_worker (executing task) e = rw (e, step) h
      by_worker ended e = rw (e, step) h
  step-IsCoherent (finish_event now ending) s free h = by_worker s.worker refl
    where
      by_worker : (w : Worker P R) → s.worker ≡ w → IsCoherent (step (finish_event now ending) s)
      by_worker no_worker e = rw (e, step) h
      by_worker idle e = rw (e, step) h
      by_worker (executing task) e = rw (e, step) (finish_task-IsCoherent now ending task s e h)
      by_worker ended e = rw (e, step) h
  step-IsCoherent stop_event s free h = stop_cron-IsCoherent s h

  pub run_events-IsCoherent :
      (events : List (CronEvent P R)) (s : CronService P R)
      → no_start_in_stop events s ≡ true
      → IsCoherent s
      → IsCoherent (run_events events s)
  unfolding run_events no_start_in_stop
  run_events-IsCoherent [] s free h = h
  run_events-IsCoherent (x ∷ events) s free h =
      run_events-IsCoherent events (step x s) (ground (arith, free))
        (step-IsCoherent x s (ground (arith, free)) h)

  pub new_service-IsCoherent : IsCoherent (new_service {P = P} {R = R})
  new_service-IsCoherent = ground arith

  -- Whatever happens to a new service, and in whatever order, where no call of `start` comes while a call
  -- of `stop` still waits for the task that the worker executes: the ids of the task that is executed and
  -- of the tasks in the queue are distinct, `running_tasks` holds the task that the worker executes and
  -- nothing else, and the history has at most 100 entries. Tasks may be added in that wait, and the task
  -- may end in any way.
  pub run_events-once :
      (events : List (CronEvent P R))
      → no_start_in_stop events (new_service {P = P} {R = R}) ≡ true
      → Distinct (
          executed_ids (run_events events new_service).worker
          ++ ids (run_events events new_service).task_queue)
        × ((run_events events new_service).running_tasks
            ≡ run_by (run_events events new_service).worker)
        × (length (run_events events new_service).task_history ≤ 100)
  run_events-once events free =
      let h = run_events-IsCoherent events new_service free new_service-IsCoherent in
      (subst Distinct h.tracked h.once, h.runs, omega (arith, h.bound, h.hundred))
