-- ===== src/Cron/Service.antt =====
-- `TaskInfo` and `CronService` of app/services/cron_service.py. One event loop runs the code, so what
-- stands between two waits is one step; the worker waits for a task in the queue, or for the task that
-- it executes. How an execution ends is an argument of the step that ends it.
use Prim.Native.String.{◌++◌ as ◌⧺◌}
use xzcccc_smart_media.Base.{
  ℕ, ◌-◌, [], ◌∷◌, ◌++◌, List, Bool, true, false, not, ltb, ◌==◌, ◌||◌, ◌&&◌, if◌then◌else◌, String,
  str_eq, Option, none, some, keep, length, drop, any,
}
use xzcccc_smart_media.Dict
use xzcccc_smart_media.Dict.{Dict}

pub data TaskStatus : Type 0 where
  pending : TaskStatus
  running : TaskStatus
  success : TaskStatus
  failed : TaskStatus

pub record TaskInfo (P R : Type 0) : Type 0 where
  pub task_id : String
  pub task_type : String
  pub params : P
  pub created_at : ℕ
  pub started_at : Option ℕ
  pub finished_at : Option ℕ
  pub status : TaskStatus
  pub result : Option R
  pub error : Option String

-- The worker of the last start: not created yet, at the queue, at a task that it executes, or at its end.
pub data Worker (P R : Type 0) : Type 0 where
  no_worker : Worker P R
  idle : Worker P R
  executing : TaskInfo P R → Worker P R
  ended : Worker P R

-- `queued_task_ids` is an attribute that is set late, `queue_loop` the event loop of the queue.
pub record CronService (P R : Type 0) : Type 0 where
  pub task_queue : List (TaskInfo P R)
  pub queued_task_ids : Option (List String)
  pub queue_loop : Option ℕ
  pub running_tasks : Dict ℕ
  pub task_history : List (TaskInfo P R)
  pub max_history : ℕ
  pub worker : Worker P R
  pub service_running : Bool
  pub task_handlers : Dict ℕ

-- How a handler ends: with a result, with an exception, or cancelled; a task that is cancelled before
-- its first step never starts.
pub data Ending (R : Type 0) : Type 0 where
  returned : R → Ending R
  raised : String → Ending R
  cancelled : Ending R
  never_started : Ending R

-- `xs[-n:]`
abbrev pub last_items : {A : Type 0} → ℕ → List A → List A
last_items n xs = if n == 0 then xs else drop (length xs - n) xs

-- `id in ids`
abbrev pub is_in : String → List String → Bool
is_in id ids = any (λ x. str_eq x id) ids

abbrev pub ids_of : Option (List String) → List String
ids_of none = []
ids_of (some ids) = ids

abbrev pub discard : String → List String → List String
discard id ids = keep (λ x. not (str_eq x id)) ids

-- `self._queued_task_ids.discard(task_id)`, where the attribute is set
abbrev pub discard_queued : String → Option (List String) → Option (List String)
discard_queued id none = none
discard_queued id (some ids) = some (discard id ids)

abbrev pub task_id_or : String → Option String → String → String
task_id_or task_type none stamp = task_type ⧺ "_" ⧺ stamp
task_id_or task_type (some id) stamp = id

module _ {P R : Type 0} where
  unfoldable pub register_cron_handler : String → ℕ → CronService P R → CronService P R
  register_cron_handler task_type handler s = record s {
    task_handlers = Dict.put task_type handler s.task_handlers;
  }

  unfoldable pub ensure_queue : ℕ → CronService P R → CronService P R
  ensure_queue current_loop s =
      let fresh : CronService P R = record s {
        task_queue = [];
        queued_task_ids = some [];
        queue_loop = some current_loop;
      } in
      elim s.queue_loop [ none ↦ fresh | some l ↦ if l == current_loop then s else fresh ]

  unfoldable pub start_cron : ℕ → CronService P R → CronService P R
  start_cron current_loop s =
      if s.service_running
      then s
      else record (ensure_queue current_loop (record s { service_running = true })) {
        worker = idle;
      }

  abbrev pub new_cron_task : ℕ → String → String → P → TaskInfo P R
  new_cron_task now task_type task_id params = record {
    task_id = task_id;
    task_type = task_type;
    params = params;
    created_at = now;
    started_at = none;
    finished_at = none;
    status = pending;
    result = none;
    error = none;
  }

  -- `add_cron_task` with the id that it uses
  unfoldable pub enqueue : ℕ → String → String → P → CronService P R → CronService P R
  enqueue now task_type id params s =
      if Dict.contains id s.running_tasks || is_in id (ids_of s.queued_task_ids)
      then s
      else record s {
        queued_task_ids = some (ids_of s.queued_task_ids ++ id ∷ []);
        task_queue = s.task_queue ++ new_cron_task now task_type id params ∷ [];
      }

  unfoldable pub add_cron_task :
      ℕ → String → Option String → String → P → CronService P R → CronService P R × String
  add_cron_task now task_type id stamp params s = (
    enqueue now task_type (task_id_or task_type id stamp) params s,
    task_id_or task_type id stamp,
  )

  -- The worker at the queue: what it does with the task that it gets.
  unfoldable pub take_task : ℕ → CronService P R → CronService P R
  take_task now s =
      if not s.service_running then record s { worker = ended } else elim s.task_queue [
        | [] ↦ s
        | task ∷ rest ↦
            if Dict.contains task.task_id s.running_tasks
            then record s { task_queue = rest }
            else record s {
              task_queue = rest;
              running_tasks = Dict.put task.task_id now s.running_tasks;
              worker = executing (record task { status = running; started_at = some now });
            }
      ]

  -- `_execute_task` from the handler's end on: the record as it enters the history.
  abbrev pub settled : ℕ → Bool → Ending R → TaskInfo P R → TaskInfo P R
  settled now registered (returned r) task =
      if registered
      then record task { status = success; result = some r; finished_at = some now }
      else record task {
        status = failed;
        error = some ("No handler registered for task type: " ⧺ task.task_type);
        finished_at = some now;
      }
  settled now registered (raised e) task =
      if registered
      then record task { status = failed; error = some e; finished_at = some now }
      else record task {
        status = failed;
        error = some ("No handler registered for task type: " ⧺ task.task_type);
        finished_at = some now;
      }
  settled now registered cancelled task = record task { finished_at = some now }
  settled now registered never_started task = task

  abbrev pub with_history : TaskInfo P R → CronService P R → CronService P R
  with_history task s =
      let grown = s.task_history ++ task ∷ [] in
      record s {
        task_history =
            if ltb s.max_history (length grown) then last_items s.max_history grown else grown;
      }

  -- The history after an execution; a task that never started leaves none.
  abbrev pub record_end : ℕ → Ending R → TaskInfo P R → CronService P R → CronService P R
  record_end now never_started task s = s
  record_end now (returned r) task s =
      with_history (settled now (Dict.contains task.task_type s.task_handlers) (returned r) task) s
  record_end now (raised e) task s =
      with_history (settled now (Dict.contains task.task_type s.task_handlers) (raised e) task) s
  record_end now cancelled task s = with_history (settled now true cancelled task) s

  -- A CancelledError ends the worker's loop.
  abbrev pub after_ending : Ending R → Worker P R
  after_ending (returned r) = idle
  after_ending (raised e) = idle
  after_ending cancelled = ended
  after_ending never_started = ended

  -- The worker at the end of the task that it waits for.
  unfoldable pub finish_task : ℕ → Ending R → TaskInfo P R → CronService P R → CronService P R
  finish_task now ending task s =
      let s' = record_end now ending task s in
      record s' {
        running_tasks = Dict.remove task.task_id s'.running_tasks;
        queued_task_ids = discard_queued task.task_id s'.queued_task_ids;
        worker = after_ending ending;
      }

  -- `stop` up to its wait for the worker. A worker at the queue ends. One that executes a task stays with
  -- it until the task, which is cancelled, ends in one way or another, and then finds that the service
  -- does not run; meanwhile `stop` waits, and other calls may come.
  unfoldable pub stop_cron : CronService P R → CronService P R
  stop_cron s =
      if not s.service_running
      then s
      else (let halted : CronService P R = record s { service_running = false } in
          elim s.worker [
            | no_worker ↦ halted
            | executing task ↦ halted
            | idle ↦ record halted { worker = ended }
            | ended ↦ halted
          ])

  -- Whether the task's execution is asked to end.
  abbrev pub is_stoppable : String → CronService P R → Bool
  is_stoppable id s = Dict.contains id s.running_tasks

  unfoldable pub get_task_history : Option String → ℕ → CronService P R → List (TaskInfo P R)
  get_task_history none limit s = last_items limit s.task_history
  get_task_history (some t) limit s =
      if str_eq t ""
      then last_items limit s.task_history
      else last_items limit (keep (λ task. str_eq task.task_type t) s.task_history)

-- A new service: `CronService()`.
abbrev pub new_service : {P R : Type 0} → CronService P R
new_service = record {
  task_queue = [];
  queued_task_ids = none;
  queue_loop = none;
  running_tasks = [];
  task_history = [];
  max_history = 100;
  worker = no_worker;
  service_running = false;
  task_handlers = [];
}

abbrev pub is_executing : {P R : Type 0} → Worker P R → Bool
is_executing no_worker = false
is_executing idle = false
is_executing (executing task) = true
is_executing ended = false

-- What the event loop and its clients do next.
pub data CronEvent (P R : Type 0) : Type 0 where
  register_event : String → ℕ → CronEvent P R
  start_event : ℕ → CronEvent P R
  add_event : ℕ → String → Option String → String → P → CronEvent P R
  take_event : ℕ → CronEvent P R
  finish_event : ℕ → Ending R → CronEvent P R
  stop_event : CronEvent P R

module _ {P R : Type 0} where
  unfoldable pub step : CronEvent P R → CronService P R → CronService P R
  step (register_event t h) s = register_cron_handler t h s
  step (start_event l) s = start_cron l s
  step (add_event now t id stamp params) s = (add_cron_task now t id stamp params s).0
  step (take_event now) s = elim s.worker [
    | no_worker ↦ s
    | idle ↦ take_task now s
    | executing task ↦ s
    | ended ↦ s
  ]
  step (finish_event now ending) s = elim s.worker [
    | no_worker ↦ s
    | idle ↦ s
    | executing task ↦ finish_task now ending task s
    | ended ↦ s
  ]
  step stop_event s = stop_cron s

  unfoldable pub run_events : List (CronEvent P R) → CronService P R → CronService P R
  run_events [] s = s
  run_events (x ∷ events) s = run_events events (step x s)

  -- No call of `start` comes in the wait of a `stop`: it would make a second worker beside the one that
  -- is stopped, and the state has one.
  abbrev pub may_come : CronEvent P R → CronService P R → Bool
  may_come (register_event t h) s = true
  may_come (start_event l) s = s.service_running || not (is_executing s.worker)
  may_come (add_event now t id stamp params) s = true
  may_come (take_event now) s = true
  may_come (finish_event now ending) s = true
  may_come stop_event s = true

  unfoldable pub no_start_in_stop : List (CronEvent P R) → CronService P R → Bool
  no_start_in_stop [] s = true
  no_start_in_stop (x ∷ events) s = may_come x s && no_start_in_stop events (step x s)
