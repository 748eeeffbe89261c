-- ===== src/Cron/Drain.antt =====
-- The worker executes what is in the queue, in its order.
use xzcccc_smart_media.Base.{
  ℕ, ◌+◌, ◌≤◌, ◌≡◌, refl, sym, ap, ◌∙◌, [], ◌∷◌, ◌++◌, List, Bool, true, false, ltb, if◌then◌else◌,
  String, some, length, length-append, All, arith,
}
use mathlib.Core.List.{map-append, append_assoc, append-nil}
use mathlib.Core.Path.{subst}
use xzcccc_smart_media.Dict
use xzcccc_smart_media.Cron.Service.{
  TaskInfo, running, idle, executing, CronService, Ending, settled, last_items, returned, raised,
  cancelled, never_started, take_task, finish_task, CronEvent, take_event, finish_event, step,
  run_events,
}
use xzcccc_smart_media.Cron.Coherent.{ids, IsCoherent}
use xzcccc_smart_media.Cron.Once.{step-IsCoherent}

-- The handler returns or raises.
abbrev pub is_plain : {R : Type 0} → Ending R → Bool
is_plain (returned r) = true
is_plain (raised e) = true
is_plain cancelled = false
is_plain never_started = false

-- The worker's turns: it takes a task and executes it to the end.
abbrev pub turns : {P R : Type 0} → List (ℕ × Ending R) → List (CronEvent P R)
turns [] = []
turns ((now, ending) ∷ rest) = take_event now ∷ finish_event now ending ∷ turns rest

module _ {P R : Type 0} where
  -- A service whose worker is at the queue, with the tasks that are there and the ids of the history.
  abbrev At : CronService P R → List (TaskInfo P R) → List String → Type 0
  At s queue done =
      IsCoherent s
      × (s.worker ≡ idle)
      × (s.service_running ≡ true)
      × (s.task_queue ≡ queue)
      × (ids s.task_history ≡ done)

  length-ids : (xs : List (TaskInfo P R)) → length (ids xs) ≡ length xs
  length-ids [] = refl
  length-ids (x ∷ xs) = ground (arith, length-ids xs)

  take_task-head :
      (now : ℕ) (task : TaskInfo P R) (queue : List (TaskInfo P R)) (done : List String)
      (s : CronService P R)
      → At s (task ∷ queue) done
      → step (take_event now) s ≡ record s {
        task_queue = queue;
        running_tasks = (task.task_id, now) ∷ [];
        worker = executing (record task { status = running; started_at = some now });
      }
  unfolding step take_task Dict.get Dict.put
  take_task-head now task queue done s (h, free, on, e, d) =
      let alone : s.running_tasks ≡ [] = ground (arith, h.runs, free) in
      ground (arith, on, e, free, alone)

  settled-id :
      (now : ℕ) (registered : Bool) (ending : Ending R) (task : TaskInfo P R)
      → (settled now registered ending task).task_id ≡ task.task_id
  settled-id now registered (returned r) task = ground arith
  settled-id now registered (raised e) task = ground arith
  settled-id now registered cancelled task = refl
  settled-id now registered never_started task = refl

  -- A history with room for one more record.
  grown :
      (now n : ℕ) (registered : Bool) (ending : Ending R) (task : TaskInfo P R)
      (history : List (TaskInfo P R))
      → length history + 1 ≤ n
      → ids (
          if ltb n (length (history ++ settled now registered ending task ∷ []))
          then last_items n (history ++ settled now registered ending task ∷ [])
          else history ++ settled now registered ending task ∷ [])
        ≡ ids history ++ task.task_id ∷ []
  grown now n registered ending task history room =
      let fits : ltb n (length (history ++ settled now registered ending task ∷ [])) ≡ false =
        ground (arith, length-append history (settled now registered ending task ∷ []), room) in
      rw fits (
        rw
          (map-append (λ (t : TaskInfo P R). t.task_id) history
            (settled now registered ending task ∷ []))
          (rw (settled-id now registered ending task) refl))

  finish_task-plain :
      (now : ℕ) (ending : Ending R) (task : TaskInfo P R) (s : CronService P R)
      → is_plain ending ≡ true
      → length s.task_history + 1 ≤ s.max_history
      → ((finish_task now ending task s).worker ≡ idle)
        × ((finish_task now ending task s).service_running ≡ s.service_running)
        × ((finish_task now ending task s).task_queue ≡ s.task_queue)
        × (ids (finish_task now ending task s).task_history
            ≡ ids s.task_history ++ task.task_id ∷ [])
  unfolding finish_task
  finish_task-plain now (returned r) task s plain room =
      (refl, refl, refl, grown now s.max_history _ (returned r) task s.task_history room)
  finish_task-plain now (raised e) task s plain room =
      (refl, refl, refl, grown now s.max_history _ (raised e) task s.task_history room)
  finish_task-plain now cancelled task s plain room = ground (arith, plain)
  finish_task-plain now never_started task s plain room = ground (arith, plain)

  turn-At :
      (now : ℕ) (ending : Ending R) (task : TaskInfo P R) (queue : List (TaskInfo P R))
      (done : List String) (s : CronService P R)
      → is_plain ending ≡ true
      → length done + 1 ≤ 100
      → At s (task ∷ queue) done
      → At
          (step (finish_event now ending) (step (take_event now) s))
          queue
          (done ++ task.task_id ∷ [])
  unfolding step
  turn-At now ending task queue done s plain room at =
      let taken = take_task-head now task queue done s at in
      let h =
        step-IsCoherent (finish_event now ending) (step (take_event now) s) refl
          (step-IsCoherent (take_event now) s refl at.0) in
      let t : CronService P R = record s {
        task_queue = queue;
        running_tasks = (task.task_id, now) ∷ [];
        worker = executing (record task { status = running; started_at = some now });
      } in
      let finished =
        finish_task-plain now ending (record task { status = running; started_at = some now }) t
          plain (ground (arith, at.4, at.0.hundred, length-ids s.task_history, room)) in
      subst
        (λ (t : CronService P R).
          At (step (finish_event now ending) t) queue (done ++ task.task_id ∷ []))
        (sym taken)
        (
          subst (λ (t : CronService P R). IsCoherent (step (finish_event now ending) t)) taken h,
          finished.0,
          finished.1 ∙ at.2,
          finished.2,
          finished.3 ∙ ap (λ (xs : List String). xs ++ task.task_id ∷ []) at.4,
        )

  turns-At :
      (rounds : List (ℕ × Ending R)) (queue : List (TaskInfo P R)) (done : List String)
      (s : CronService P R)
      → All (λ (round : ℕ × Ending R). is_plain round.1 ≡ true) rounds
      → length rounds ≡ length queue
      → length done + length queue ≤ 100
      → At s queue done
      → At (run_events (turns rounds) s) [] (done ++ ids queue)
  unfolding run_events
  turns-At [] [] done s plain same room at = rw (append-nil done) at
  turns-At [] (task ∷ queue) done s plain same room at = ground (arith, same)
  turns-At (r ∷ rounds) [] done s plain same room at = ground (arith, same)
  turns-At ((now, ending) ∷ rounds) (task ∷ queue) done s (plain, rest) same room at =
      rw (sym (append_assoc done (task.task_id ∷ []) (ids queue))) (
        turns-At rounds queue (done ++ task.task_id ∷ []) _ rest (omega (arith, same))
          (omega (arith, room, length-append done (task.task_id ∷ [])))
          (turn-At now ending task queue done s plain (omega (arith, room)) at))

  -- A service that runs, in a state that the invariant allows, whose worker is at the queue and whose
  -- history has room for the tasks in the queue: when the worker has its turn for each of these tasks and
  -- no handler is cancelled, then the queue is empty, the worker is at the queue again, and the history
  -- has got the ids of the tasks, in the queue's order, those included whose handler raised.
  pub run_events-turns :
      (rounds : List (ℕ × Ending R)) (s : CronService P R)
      → IsCoherent s
      → s.worker ≡ idle
      → s.service_running ≡ true
      → All (λ (round : ℕ × Ending R). is_plain round.1 ≡ true) rounds
      → length rounds ≡ length s.task_queue
      → length s.task_history + length s.task_queue ≤ 100
      → ((run_events (turns rounds) s).task_queue ≡ [])
        × ((run_events (turns rounds) s).worker ≡ idle)
        × (ids (run_events (turns rounds) s).task_history ≡ ids s.task_history ++ ids s.task_queue)
  run_events-turns rounds s h free on plain same room =
      let drained =
        turns-At rounds s.task_queue (ids s.task_history) s plain same
          (omega (arith, room, length-ids s.task_history)) (h, free, on, refl, refl) in
      (drained.3, drained.1, drained.4)
