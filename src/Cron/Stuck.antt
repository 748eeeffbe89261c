-- ===== src/Cron/Stuck.antt =====
-- A task that is cancelled ends the worker for good.
use xzcccc_smart_media.Base.{
  ℕ, ◌≡◌, refl, sym, ap, ◌∙◌, [], ◌∷◌, ◌++◌, List, Bool, true, false, ◌||◌, String, All, arith,
  Bool-cases, inl, inr,
}
use mathlib.Core.List.{append_assoc, append-nil}
use xzcccc_smart_media.Dict
use xzcccc_smart_media.Cron.Service.{
  TaskInfo, ended, CronService, cancelled, is_in, ids_of, register_cron_handler, start_cron,
  enqueue, add_cron_task, task_id_or, new_cron_task, finish_task, CronEvent, register_event,
  start_event, add_event, take_event, finish_event, stop_event, step, run_events,
}

-- An event other than a call of `stop`.
abbrev pub goes_on : {P R : Type 0} → CronEvent P R → Bool
goes_on (register_event t k) = true
goes_on (start_event l) = true
goes_on (add_event now t id stamp params) = true
goes_on (take_event now) = true
goes_on (finish_event now ending) = true
goes_on stop_event = false

module _ {P R : Type 0} where
  -- The worker has ended, the service counts as running, and tasks only come to the queue.
  pub record IsStuck (before s : CronService P R) : Type 0 where
    pub no_more : s.worker ≡ ended
    pub on : s.service_running ≡ true
    pub same_history : s.task_history ≡ before.task_history
    pub added : List (TaskInfo P R)
    pub waiting : s.task_queue ≡ before.task_queue ++ added

  enqueue-IsStuck :
      (now : ℕ) (t id : String) (params : P) (before s : CronService P R)
      → IsStuck before s
      → IsStuck before (enqueue now t id params s)
  unfolding enqueue
  enqueue-IsStuck now t id params before s h =
      elim (Bool-cases (Dict.contains id s.running_tasks || is_in id (ids_of s.queued_task_ids))) [
        | inl there ↦ rw (there, enqueue) h
        | inr new ↦
            rw (new, enqueue)
              (record {
                no_more = h.no_more;
                on = h.on;
                same_history = h.same_history;
                added = h.added ++ new_cron_task now t id params ∷ [];
                waiting =
                    rw h.waiting
                      (append_assoc before.task_queue h.added (new_cron_task now t id params ∷ []));
              })
      ]

  step-IsStuck :
      (x : CronEvent P R) (before s : CronService P R)
      → goes_on x ≡ true
      → IsStuck before s
      → IsStuck before (step x s)
  unfolding step register_cron_handler add_cron_task start_cron
  step-IsStuck (register_event t k) before s goes h = record {
    no_more = h.no_more;
    on = h.on;
    same_history = h.same_history;
    added = h.added;
    waiting = h.waiting;
  }
  step-IsStuck (start_event l) before s goes h = simp (h.on) h
  step-IsStuck (add_event now t id stamp params) before s goes h =
      enqueue-IsStuck now t (task_id_or t id stamp) params before s h
  step-IsStuck (take_event now) before s goes h = rw (h.no_more, step) h
  step-IsStuck (finish_event now ending) before s goes h = rw (h.no_more, step) h
  step-IsStuck stop_event before s goes h = ground (arith, goes)

  run_events-IsStuck :
      (events : List (CronEvent P R)) (before s : CronService P R)
      → All (λ (x : CronEvent P R). goes_on x ≡ true) events
      → IsStuck before s
      → IsStuck before (run_events events s)
  unfolding run_events
  run_events-IsStuck [] before s goes h = h
  run_events-IsStuck (x ∷ events) before s (goes, rest) h =
      run_events-IsStuck events before (step x s) rest (step-IsStuck x before s goes h)

  queue_of :
      (now : ℕ) (task : TaskInfo P R) (s : CronService P R)
      → (finish_task now cancelled task s).task_queue ≡ s.task_queue
  unfolding finish_task
  queue_of now task s = refl

  finish_task-IsStuck :
      (now : ℕ) (task : TaskInfo P R) (s : CronService P R)
      → s.service_running ≡ true
      → IsStuck (finish_task now cancelled task s) (finish_task now cancelled task s)
  unfolding finish_task
  finish_task-IsStuck now task s on = record {
    no_more = refl;
    on = on;
    same_history = refl;
    added = [];
    waiting = sym (append-nil _);
  }

  -- When a task of a running service is cancelled, as `stop_task` does, the worker ends with it: whatever
  -- follows except a call of `stop`, a new `start` included, no task is executed any more, the history
  -- stays as it is, and the tasks in the queue stay there, with those that are added behind them.
  pub finish_task-run_events :
      (now : ℕ) (task : TaskInfo P R) (s : CronService P R) (events : List (CronEvent P R))
      → s.service_running ≡ true
      → All (λ (x : CronEvent P R). goes_on x ≡ true) events
      → ((run_events events (finish_task now cancelled task s)).worker ≡ ended)
        × ((run_events events (finish_task now cancelled task s)).service_running ≡ true)
        × ((run_events events (finish_task now cancelled task s)).task_history
            ≡ (finish_task now cancelled task s).task_history)
        × (added : List (TaskInfo P R)) × ((run_events events
              (finish_task now cancelled task s)).task_queue
            ≡ s.task_queue ++ added)
  finish_task-run_events now task s events on goes =
      let h =
        run_events-IsStuck events (finish_task now cancelled task s)
          (finish_task now cancelled task s) goes (finish_task-IsStuck now task s on) in
      (
        h.no_more,
        h.on,
        h.same_history,
        h.added,
        h.waiting ∙ ap (λ (queue : List (TaskInfo P R)). queue ++ h.added) (queue_of now task s),
      )
