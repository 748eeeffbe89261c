-- ===== src/Cron/Coherent.antt =====
-- The invariant of the service, and the operations that keep it.
use xzcccc_smart_media.Base.{
  ℕ, ◌-◌, ◌≤◌, ◌<◌, ◌≡◌, refl, sym, ap, ◌∙◌, [], ◌∷◌, ◌++◌, List, map, true, false, ltb, ◌||◌, not,
  if◌then◌else◌, String, str_eq, eq_iff, Option, none, some, keep, length, length-drop, any, arith,
  Bool-cases, inl, inr,
}
use mathlib.Core.Path.{subst}
use mathlib.Core.List.{map-append, append_assoc}
use xzcccc_smart_media.Dict
use xzcccc_smart_media.Cron.Service.{
  TaskInfo, running, Worker, no_worker, idle, executing, ended, CronService, Ending, returned,
  raised, cancelled, never_started, last_items, is_in, ids_of, discard, discard_queued,
  is_executing, ensure_queue, start_cron, new_cron_task, enqueue, take_task, finish_task,
}

abbrev pub Distinct : List String → Type 0
Distinct [] = Unit
Distinct (x ∷ xs) = (is_in x xs ≡ false) × Distinct xs

Distinct-append :
    (xs : List String) (x : String) → is_in x xs ≡ false → Distinct xs → Distinct (xs ++ x ∷ [])
unfolding any
Distinct-append [] x absent h = (refl, tt)
Distinct-append (y ∷ ys) x absent (own, h) = (
  ground (arith, is_in-append y ys x, eq_iff x y, eq_iff y x),
  Distinct-append ys x (ground (arith, absent)) h,
)
  where
    is_in-append :
        (y : String) (ys : List String) (x : String)
        → is_in y (ys ++ x ∷ []) ≡ is_in y ys || str_eq x y
    is_in-append y [] x = ground arith
    is_in-append y (z ∷ zs) x = ground (arith, is_in-append y zs x)

discard_absent : (x : String) (xs : List String) → is_in x xs ≡ false → discard x xs ≡ xs
unfolding any keep
discard_absent x [] absent = refl
discard_absent x (y ∷ ys) absent = ground (arith, discard_absent x ys, absent)

discard-head : (x : String) (xs : List String) → is_in x xs ≡ false → discard x (x ∷ xs) ≡ xs
unfolding keep
discard-head x xs absent = ground (arith, eq_iff x x, discard_absent x xs absent)

-- The history stays within a bound that is not zero.
last_items-bound :
    {A : Type 0} (n : ℕ) (xs : List A)
    → 0 < n
    → length (if ltb n (length xs) then last_items n xs else xs) ≤ n
last_items-bound n xs positive = elim (Bool-cases (ltb n (length xs))) [
  | inl over ↦ rw over (ground (arith, positive, length-drop (length xs - n) xs))
  | inr fits ↦ rw fits (ground (arith, fits))
]

ids_of-discard :
    (id : String) (o : Option (List String)) → ids_of (discard_queued id o) ≡ discard id (ids_of o)
unfolding keep
ids_of-discard id none = refl
ids_of-discard id (some xs) = refl

abbrev pub started_or : Option ℕ → ℕ
started_or none = 0
started_or (some now) = now

module _ {P R : Type 0} where
  abbrev pub ids : List (TaskInfo P R) → List String
  ids tasks = map (λ (task : TaskInfo P R). task.task_id) tasks

  abbrev pub executed_ids : Worker P R → List String
  executed_ids no_worker = []
  executed_ids idle = []
  executed_ids (executing task) = task.task_id ∷ []
  executed_ids ended = []

  abbrev pub run_by : Worker P R → Dict.Dict ℕ
  run_by no_worker = []
  run_by idle = []
  run_by (executing task) = (task.task_id, started_or task.started_at) ∷ []
  run_by ended = []

  -- The ids that are tracked are those of the task that is executed and of the tasks in the queue, each
  -- once; the running tasks are what the worker executes; the history is within its bound of 100.
  pub record IsCoherent (s : CronService P R) : Type 0 where
    pub tracked : ids_of s.queued_task_ids ≡ executed_ids s.worker ++ ids s.task_queue
    pub once : Distinct (ids_of s.queued_task_ids)
    pub runs : s.running_tasks ≡ run_by s.worker
    pub bound : length s.task_history ≤ s.max_history
    pub hundred : s.max_history ≡ 100

  pub enqueue-IsCoherent :
      (now : ℕ) (t id : String) (params : P) (s : CronService P R)
      → IsCoherent s
      → IsCoherent (enqueue now t id params s)
  unfolding enqueue
  enqueue-IsCoherent now t id params s h =
      elim (Bool-cases (Dict.contains id s.running_tasks || is_in id (ids_of s.queued_task_ids))) [
        | inl there ↦ rw (there, enqueue) h
        | inr new ↦
            rw (new, enqueue)
              (record {
                tracked = rw h.tracked (
                    rw
                      (map-append (λ (task : TaskInfo P R). task.task_id) s.task_queue
                        (new_cron_task now t id params ∷ []))
                      (append_assoc (executed_ids s.worker) (ids s.task_queue) (id ∷ [])));
                once = Distinct-append (ids_of s.queued_task_ids) id (ground (arith, new)) h.once;
                runs = h.runs;
                bound = h.bound;
                hundred = h.hundred;
              })
      ]

  pub start_cron-IsCoherent :
      (l : ℕ) (s : CronService P R)
      → s.service_running || not (is_executing s.worker) ≡ true
      → IsCoherent s
      → IsCoherent (start_cron l s)
  unfolding start_cron ensure_queue
  start_cron-IsCoherent l s free h = elim (Bool-cases s.service_running) [
    | inl on ↦ simp on h
    | inr off ↦
        let none_executed = executing_none s.worker (ground (arith, free, off)) in
        ground (arith, off, none_executed, h.tracked, h.once, h.runs, h.bound, h.hundred)
  ]
    where
      executing_none :
          (w : Worker P R) → is_executing w ≡ false → (executed_ids w ≡ []) × (run_by w ≡ [])
      executing_none no_worker off = (refl, refl)
      executing_none idle off = (refl, refl)
      executing_none (executing task) off = ground (arith, off)
      executing_none ended off = (refl, refl)

  pub take_task-IsCoherent :
      (now : ℕ) (s : CronService P R)
      → s.worker ≡ idle
      → IsCoherent s
      → IsCoherent (take_task now s)
  unfolding take_task Dict.get Dict.put
  take_task-IsCoherent now s free h = elim (Bool-cases s.service_running) [
    | inr off ↦ simp off (ground (arith, off, free, h.tracked, h.once, h.runs, h.bound, h.hundred))
    | inl on ↦ by_queue on s.task_queue refl
  ]
    where
      by_queue :
          s.service_running ≡ true
          → (queue : List (TaskInfo P R)) → s.task_queue ≡ queue
          → IsCoherent (take_task now s)
      by_queue on [] e = ground (arith, on, e, h)
      by_queue on (task ∷ rest) e =
          let alone : s.running_tasks ≡ [] = ground (arith, h.runs, free) in
          let taken : take_task now s ≡ record s {
            task_queue = rest;
            running_tasks = Dict.put task.task_id now s.running_tasks;
            worker = executing (record task { status = running; started_at = some now });
          } =
            ground (arith, on, e, alone) in
          subst IsCoherent (sym taken) (record {
            tracked =
                h.tracked
                ∙ ap (λ (w : Worker P R). executed_ids w ++ ids s.task_queue) free
                ∙ ap (λ (queue : List (TaskInfo P R)). ids queue) e;
            once = h.once;
            runs = ground (arith, alone);
            bound = h.bound;
            hundred = h.hundred;
          })

  -- The task that was executed is taken off, whatever history is kept.
  released :
      (task : TaskInfo P R) (s : CronService P R) (w : Worker P R) (history : List (TaskInfo P R))
      → executed_ids w ≡ []
      → run_by w ≡ []
      → s.worker ≡ executing task
      → IsCoherent s
      → length history ≤ s.max_history
      → IsCoherent (record s {
        task_history = history;
        running_tasks = Dict.remove task.task_id s.running_tasks;
        queued_task_ids = discard_queued task.task_id s.queued_task_ids;
        worker = w;
      })
  unfolding Dict.remove
  released task s w history none_executed none_run busy h fits =
      let tracked : ids_of s.queued_task_ids ≡ task.task_id ∷ ids s.task_queue =
        ground (arith, h.tracked, busy) in
      let once : Distinct (task.task_id ∷ ids s.task_queue) = subst Distinct tracked h.once in
      let rest : ids_of (discard_queued task.task_id s.queued_task_ids) ≡ ids s.task_queue =
        ids_of-discard task.task_id s.queued_task_ids
        ∙ ap (discard task.task_id) tracked
        ∙ discard-head task.task_id (ids s.task_queue) once.0 in
      record {
        tracked = rw none_executed rest;
        once = subst Distinct (sym rest) once.1;
        runs = rw none_run (ground (arith, h.runs, busy, eq_iff task.task_id task.task_id));
        bound = fits;
        hundred = h.hundred;
      }

  pub finish_task-IsCoherent :
      (now : ℕ) (ending : Ending R) (task : TaskInfo P R) (s : CronService P R)
      → s.worker ≡ executing task
      → IsCoherent s
      → IsCoherent (finish_task now ending task s)
  unfolding finish_task
  finish_task-IsCoherent now (returned r) task s busy h =
      released task s idle _ refl refl busy h
        (last_items-bound s.max_history _ (omega (arith, h.hundred)))
  finish_task-IsCoherent now (raised e) task s busy h =
      released task s idle _ refl refl busy h
        (last_items-bound s.max_history _ (omega (arith, h.hundred)))
  finish_task-IsCoherent now cancelled task s busy h =
      released task s ended _ refl refl busy h
        (last_items-bound s.max_history _ (omega (arith, h.hundred)))
  finish_task-IsCoherent now never_started task s busy h =
      released task s ended _ refl refl busy h h.bound
