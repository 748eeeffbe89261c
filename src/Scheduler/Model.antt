-- ===== src/Scheduler/Model.antt =====
-- `Task` and `TaskScheduler` of app/services/platform/task_scheduler.py. `now` is the call of
-- `datetime.now()`. A run has two steps, before and after the handler, as other steps may come
-- between. An interval value is not negative here.
use xzcccc_smart_media.Base.{
  ℕ, ◌+◌, ◌*◌, ◌-◌, ◌/◌, ◌%◌, map, Bool, true, false, ◌&&◌, leb, if◌then◌else◌, String, str_eq,
  Option, none, some,
}
use xzcccc_smart_media.Dict
use xzcccc_smart_media.Dict.{Dict}
use xzcccc_smart_media.Scheduler.Calendar.{minute, hour, day, weekday, month_start}

pub data ScheduleStatus : Type 0 where
  pending : ScheduleStatus
  running : ScheduleStatus
  completed : ScheduleStatus
  failed : ScheduleStatus
  stopped : ScheduleStatus

pub data TaskMode : Type 0 where
  strm_creation : TaskMode
  strm_validation_quick : TaskMode
  strm_validation_slow : TaskMode

pub record ScheduledTask : Type 0 where
  pub name : String
  pub mode : TaskMode
  pub interval_type : String
  pub interval_value : ℕ
  pub config_id : String
  pub enabled : Bool
  pub status : ScheduleStatus
  pub last_run : Option ℕ
  pub next_run : Option ℕ
  pub error_message : Option String

abbrev pub midnight : ℕ → ℕ
midnight now = now / day * day

-- `(self.interval_value - now.weekday()) % 7`
abbrev pub days_ahead : ℕ → ℕ → ℕ
days_ahead value d = (value + 7 - weekday d) % 7

-- The next run of an interval type and value, none for an unknown type.
unfoldable pub next_time : ℕ → String → ℕ → Option ℕ
next_time now interval_type value =
    if str_eq interval_type "minute"
    then some (now + value * minute)
    else if str_eq interval_type "hourly"
    then some (now / hour * hour + value * hour)
    else if str_eq interval_type "daily"
    then some (midnight now + value * day)
    else if str_eq interval_type "weekly"
    then some (midnight now + days_ahead value (now / day) * day)
    else if str_eq interval_type "monthly"
    then some (month_start (month_start (now / day) + 32 * value) * day)
    else none

abbrev pub calculate_next_run : ℕ → ScheduledTask → ScheduledTask
calculate_next_run now t = record t { next_run = next_time now t.interval_type t.interval_value }

unfoldable pub new_scheduled : ℕ → String → TaskMode → String → ℕ → String → Bool → ScheduledTask
new_scheduled now name mode interval_type interval_value config_id enabled = record {
  name = name;
  mode = mode;
  interval_type = interval_type;
  interval_value = interval_value;
  config_id = config_id;
  enabled = enabled;
  status = pending;
  last_run = none;
  next_run = next_time now interval_type interval_value;
  error_message = none;
}

unfoldable pub should_run : ℕ → ScheduledTask → Bool
should_run now t = elim t.next_run [ none ↦ false | some at ↦ t.enabled && leb at now ]

abbrev pub is_running : ScheduleStatus → Bool
is_running running = true
is_running _ = false

-- `run` up to the call of the handler; a task that is running is left alone.
unfoldable pub begin_run : ℕ → ScheduledTask → ScheduledTask
begin_run now t =
    if is_running t.status
    then t
    else record t { status = running; last_run = some now; error_message = none }

-- The rest of `run`; the handler has raised the message, or nothing.
unfoldable pub finish_run : ℕ → Option String → ScheduledTask → ScheduledTask
finish_run now none t = calculate_next_run now (record t { status = completed })
finish_run now (some message) t =
    calculate_next_run now (record t { status = failed; error_message = some message })

unfoldable pub stop_task : ScheduledTask → ScheduledTask
stop_task t = record t { enabled = false; status = stopped }

-- `asyncio`'s task of the loop is there while `running` is true.
pub record TaskScheduler : Type 0 where
  pub tasks : Dict ScheduledTask
  pub loop_runs : Bool
  pub has_handler : TaskMode → Bool

abbrev pub same_mode : TaskMode → TaskMode → Bool
same_mode strm_creation strm_creation = true
same_mode strm_validation_quick strm_validation_quick = true
same_mode strm_validation_slow strm_validation_slow = true
same_mode _ _ = false

unfoldable pub register_handler : TaskMode → TaskScheduler → TaskScheduler
register_handler mode s = record s {
  has_handler = λ m. if same_mode mode m then true else s.has_handler m;
}

unfoldable pub add_task :
    ℕ → String → String → TaskMode → String → ℕ → String → Bool → TaskScheduler → TaskScheduler
add_task now task_id name mode interval_type interval_value config_id enabled s = record s {
  tasks =
      Dict.put task_id (new_scheduled now name mode interval_type interval_value config_id enabled)
        s.tasks;
}

-- The value where it is given.
abbrev pub replaced {ℓ} : {A : Type ℓ} → Option A → A → A
replaced none old = old
replaced (some new) old = new

abbrev pub update_fields :
    Option String → Option String → Option ℕ → Option Bool → ScheduledTask → ScheduledTask
update_fields name interval_type interval_value enabled t = record t {
  name = replaced name t.name;
  interval_type = replaced interval_type t.interval_type;
  interval_value = replaced interval_value t.interval_value;
  enabled = replaced enabled t.enabled;
}

unfoldable pub update_task :
    ℕ
    → String
    → Option String
    → Option String
    → Option ℕ
    → Option Bool
    → TaskScheduler
    → TaskScheduler × Bool
update_task now task_id name interval_type interval_value enabled s =
    elim (Dict.get task_id s.tasks) [
      | none ↦ (s, false)
      | some t ↦
          let t' =
            calculate_next_run now (update_fields name interval_type interval_value enabled t) in
          (record s { tasks = Dict.put task_id t' s.tasks }, true)
    ]

unfoldable pub delete_scheduled : String → TaskScheduler → TaskScheduler × Bool
delete_scheduled task_id s =
    if Dict.contains task_id s.tasks
    then (record s { tasks = Dict.remove task_id s.tasks }, true)
    else (s, false)

abbrev pub map_tasks : (ScheduledTask → ScheduledTask) → TaskScheduler → TaskScheduler
map_tasks f s = record s { tasks = map (λ item. (item.0, f item.1)) s.tasks }

-- Whether the loop starts a run of the task.
abbrev pub starts : ℕ → TaskScheduler → ScheduledTask → Bool
starts now s t = should_run now t && s.has_handler t.mode

-- One round of `_scheduler_loop`, with the first step of the runs that it starts.
unfoldable pub tick : ℕ → TaskScheduler → TaskScheduler
tick now s =
    if s.loop_runs then map_tasks (λ t. if starts now s t then begin_run now t else t) s else s

unfoldable pub start : TaskScheduler → TaskScheduler
start s = if s.loop_runs then s else record s { loop_runs = true }

unfoldable pub stop : TaskScheduler → TaskScheduler
stop s = if s.loop_runs then record (map_tasks stop_task s) { loop_runs = false } else s

-- `run_task_immediately` up to the call of the handler
unfoldable pub run_task_immediately : ℕ → String → TaskScheduler → TaskScheduler × Bool
run_task_immediately now task_id s = elim (Dict.get task_id s.tasks) [
  | none ↦ (s, false)
  | some t ↦
      if s.has_handler t.mode
      then (record s { tasks = Dict.put task_id (begin_run now t) s.tasks }, true)
      else (s, false)
]
