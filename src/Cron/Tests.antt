-- ===== src/Cron/Tests.antt =====
-- Runs of the service's code, and instances of its theorems.
use xzcccc_smart_media.Base.{
  ℕ, ◌≡◌, ◌≤◌, refl, [], ◌∷◌, ◌++◌, List, true, none, some, length, any, keep, arith,
}
use xzcccc_smart_media.Dict
use xzcccc_smart_media.Cron.Service.{
  TaskInfo, idle, ended, CronService, pending, Ending, returned, raised, cancelled, new_service,
  register_cron_handler, ensure_queue, start_cron, enqueue, add_cron_task, take_task, finish_task,
  CronEvent, register_event, start_event, add_event, take_event, finish_event, stop_event, step,
  run_events, no_start_in_stop, stop_cron,
}
use xzcccc_smart_media.Cron.Coherent.{ids, executed_ids, run_by, Distinct}
use xzcccc_smart_media.Cron.Once.{run_events-IsCoherent, new_service-IsCoherent, run_events-once}
use xzcccc_smart_media.Cron.Stuck.{finish_task-run_events}
use xzcccc_smart_media.Cron.Drain.{turns, run_events-turns}

abbrev Service : Type 0
Service = CronService ℕ ℕ

-- Two tasks, one of them added again under the same id.
abbrev two_tasks : List (CronEvent ℕ ℕ)
two_tasks =
    register_event "sync" 1
    ∷ start_event 7
    ∷ add_event 10 "sync" (some "a") "" 1
    ∷ add_event 11 "sync" none "11.0" 2
    ∷ add_event 12 "sync" (some "a") "" 3
    ∷ []

queue_run : ids (run_events two_tasks new_service).task_queue ≡ "a" ∷ "sync_11.0" ∷ []
unfolding run_events step register_cron_handler start_cron ensure_queue add_cron_task enqueue any
    Dict.get Dict.put
queue_run = refl

-- What is added before the first start is lost.
abbrev early : List (CronEvent ℕ ℕ)
early = add_event 10 "sync" (some "a") "" 1 ∷ start_event 7 ∷ []

lost_run : (run_events early new_service).task_queue ≡ []
unfolding run_events step register_cron_handler start_cron ensure_queue add_cron_task enqueue any
    Dict.get Dict.put
lost_run = refl

abbrev turns_and_stop : List (CronEvent ℕ ℕ)
turns_and_stop =
    two_tasks
    ++ take_event 13
      ∷ add_event 14 "sync" (some "a") "" 4
      ∷ stop_event
      ∷ add_event 15 "sync" (some "b") "" 5
      ∷ finish_event 16 cancelled
      ∷ start_event 7
      ∷ []

stop_waits : no_start_in_stop turns_and_stop (new_service {P = ℕ} {R = ℕ}) ≡ true
unfolding no_start_in_stop run_events step register_cron_handler start_cron ensure_queue
    add_cron_task enqueue take_task finish_task stop_cron any keep Dict.get Dict.put Dict.remove
stop_waits = refl

-- A start in the wait of a stop: two tasks are in `running_tasks`.
abbrev start_in_stop : List (CronEvent ℕ ℕ)
start_in_stop = two_tasks ++ take_event 13 ∷ stop_event ∷ start_event 7 ∷ take_event 14 ∷ []

start_in_stop_run : length (run_events start_in_stop new_service).running_tasks ≡ 2
unfolding run_events step register_cron_handler start_cron ensure_queue add_cron_task enqueue
    take_task stop_cron any Dict.get Dict.put
start_in_stop_run = refl

run_events-once_example :
    Distinct (
      executed_ids (run_events turns_and_stop new_service).worker
      ++ ids (run_events turns_and_stop new_service).task_queue)
    × ((run_events turns_and_stop new_service).running_tasks
        ≡ run_by (run_events turns_and_stop new_service).worker)
    × (length (run_events turns_and_stop new_service).task_history ≤ 100)
run_events-once_example = run_events-once turns_and_stop stop_waits

abbrev busy : Service
busy = run_events (take_event 13 ∷ []) (run_events two_tasks new_service)

abbrev first_task : TaskInfo ℕ ℕ
first_task = record {
  task_id = "a";
  task_type = "sync";
  params = 1;
  created_at = 10;
  started_at = some 13;
  finished_at = none;
  status = pending;
  result = none;
  error = none;
}

abbrev later : List (CronEvent ℕ ℕ)
later = add_event 20 "sync" (some "c") "" 5 ∷ start_event 7 ∷ take_event 21 ∷ []

finish_task-run_events_example :
    ((run_events later (finish_task 15 cancelled first_task busy)).worker ≡ ended)
    × ((run_events later (finish_task 15 cancelled first_task busy)).service_running ≡ true)
    × ((run_events later (finish_task 15 cancelled first_task busy)).task_history
        ≡ (finish_task 15 cancelled first_task busy).task_history)
    × (added : List (TaskInfo ℕ ℕ)) × ((run_events later
          (finish_task 15 cancelled first_task busy)).task_queue
        ≡ busy.task_queue ++ added)
unfolding run_events step register_cron_handler start_cron ensure_queue add_cron_task enqueue any
    take_task Dict.get Dict.put
finish_task-run_events_example =
    finish_task-run_events 15 first_task busy later refl (refl, (refl, (refl, tt)))

abbrev rounds : List (ℕ × Ending ℕ)
rounds = (13, returned 5) ∷ (14, raised "no answer") ∷ []

two_tasks_come : no_start_in_stop two_tasks (new_service {P = ℕ} {R = ℕ}) ≡ true
unfolding no_start_in_stop run_events step register_cron_handler start_cron ensure_queue
    add_cron_task enqueue any Dict.get Dict.put
two_tasks_come = refl

run_events-turns_example :
    ((run_events (turns rounds) (run_events two_tasks new_service)).task_queue ≡ [])
    × ((run_events (turns rounds) (run_events two_tasks new_service)).worker ≡ idle)
    × (ids (run_events (turns rounds) (run_events two_tasks new_service)).task_history
        ≡ ids (run_events two_tasks new_service).task_history
          ++ ids (run_events two_tasks new_service).task_queue)
unfolding run_events step register_cron_handler start_cron ensure_queue add_cron_task enqueue any
    Dict.get Dict.put
run_events-turns_example =
    run_events-turns rounds (run_events two_tasks new_service)
      (run_events-IsCoherent two_tasks new_service two_tasks_come new_service-IsCoherent) refl refl
      (refl, (refl, tt)) refl (omega arith)
