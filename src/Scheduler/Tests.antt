-- ===== src/Scheduler/Tests.antt =====
-- Runs of the scheduler, and the theorems at a small schedule. Day 20000 is a Friday, and 1 is its weekday 4.
use xzcccc_smart_media.Base.{
  ℕ, ◌+◌, ◌*◌, ◌≡◌, ◌≢◌, refl, [], ◌∷◌, true, false, String, none, some, arith, eq_iff,
}
use xzcccc_smart_media.Dict
use xzcccc_smart_media.Scheduler.Calendar.{
  day, hour, month_start, month_start_from, month_length, weekday,
}
use xzcccc_smart_media.Scheduler.Model.{
  ScheduledTask, ScheduleStatus, strm_creation, TaskScheduler, should_run, finish_run,
}
use xzcccc_smart_media.Scheduler.Due.{finish_run_not_due, weekly_due_all_day}

weekday-thursday : weekday 20000 ≡ 4
weekday-thursday = refl

-- 15 March 1970 lies in the month that begins at day 59.
month_start-march : month_start 73 ≡ 59
unfolding month_start month_start_from month_length
month_start-march = refl

abbrev task_of : String → ℕ → ScheduledTask
task_of kind value = record {
  name = "strm";
  mode = strm_creation;
  interval_type = kind;
  interval_value = value;
  config_id = "c";
  enabled = true;
  status = ScheduleStatus.pending;
  last_run = none;
  next_run = some 5;
  error_message = none;
}

abbrev small_scheduler : TaskScheduler
small_scheduler = record {
  tasks = ("t", task_of "hourly" 1) ∷ [];
  loop_runs = true;
  has_handler = λ m. true;
}

hourly_kind : ◌≢◌ {A = String} "hourly" "weekly"
hourly_kind = ground (arith, eq_iff "hourly" "weekly")

finish_run_not_due_example : should_run 7 (finish_run 7 none (task_of "hourly" 1)) ≡ false
finish_run_not_due_example =
    finish_run_not_due 7 none (task_of "hourly" 1) (omega arith) hourly_kind

weekly_due_all_day_example :
    should_run (20000 * day + 5 * hour) (finish_run (20000 * day + hour) none (task_of "weekly" 4))
    ≡ true
weekly_due_all_day_example =
    weekly_due_all_day (20000 * day + hour) (20000 * day + 5 * hour) none (task_of "weekly" 4) refl
      refl refl refl

found_task : Dict.get "t" small_scheduler.tasks ≡ some (task_of "hourly" 1)
unfolding Dict.get
found_task = refl
