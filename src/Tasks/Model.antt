-- ===== src/Tasks/Model.antt =====
-- app/models/task.py: the task row, its statuses and the sets of statuses; and `TaskCreate` of
-- app/schemas/task.py. Times are microseconds since an epoch, as `datetime` counts them.
use xzcccc_smart_media.Base.{ℕ, String, Bool, true, false, Option, or_default}

-- The values that the code writes to the column `status`.
pub data Status : Type 0 where
  pending leased running planning reviewing : Status
  cancel_requested retry_scheduled completed partial_success failed cancelled : Status

-- TASK_TERMINAL_STATES
abbrev pub is_terminal : Status → Bool
is_terminal completed = true
is_terminal partial_success = true
is_terminal failed = true
is_terminal cancelled = true
is_terminal _ = false

-- TASK_LEASEABLE_STATES
abbrev pub is_leaseable : Status → Bool
is_leaseable pending = true
is_leaseable retry_scheduled = true
is_leaseable _ = false

-- TASK_ACTIVE_STATES, which holds `leased` already: `TASK_ACTIVE_STATES | {"leased"}` is the set.
abbrev pub is_active : Status → Bool
is_active leased = true
is_active running = true
is_active planning = true
is_active reviewing = true
is_active _ = false

abbrev pub is_cancel_requested : Status → Bool
is_cancel_requested cancel_requested = true
is_cancel_requested _ = false

abbrev pub is_failed : Status → Bool
is_failed failed = true
is_failed _ = false

-- The JSON columns `logs`, `params` and `resume_cursor` are not read by the code that is modelled.
pub record Task : Type 0 where
  pub id : ℕ
  pub task_type : String
  pub status : Status
  pub priority : String
  pub progress : ℕ
  pub total_items : ℕ
  pub processed_items : ℕ
  pub error_message : Option String
  pub lease_owner : Option String
  pub lease_until : Option ℕ
  pub heartbeat_at : Option ℕ
  pub attempt : ℕ
  pub max_attempts : ℕ
  pub idempotency_key : Option String
  pub next_run_at : Option ℕ
  pub created_at : ℕ
  pub started_at : Option ℕ
  pub completed_at : Option ℕ

-- What Python's `int(value)` may return.
pub data ℤ : Type 0 where
  pos : ℕ → ℤ
  negsuc : ℕ → ℤ

-- `params["max_attempts"]` is given by the outcome of `int(...)` on it, `none` where it raises
-- TypeError or ValueError.
pub record TaskCreate : Type 0 where
  pub task_type : String
  pub priority : String
  pub max_attempts : Option ℤ
  pub idempotency_key : Option String

-- `int(task.max_attempts or 1)`
abbrev pub attempt_limit : Task → ℕ
attempt_limit t = or_default t.max_attempts 1
