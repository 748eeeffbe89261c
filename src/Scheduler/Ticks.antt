-- ===== src/Scheduler/Ticks.antt =====
-- What a round of the scheduler's loop does to each task.
use xzcccc_smart_media.Base.{
  ℕ, ◌≡◌, refl, [], ◌∷◌, map, Bool, true, false, not, ◌&&◌, ◌||◌, if◌then◌else◌, String, str_eq,
  some, arith, Bool-cases, inl, inr,
}
use xzcccc_smart_media.Dict
use xzcccc_smart_media.Dict.{Dict}
use xzcccc_smart_media.Scheduler.Model.{
  ScheduledTask, TaskScheduler, is_running, begin_run, starts, tick,
}

get-map :
    (f : ScheduledTask → ScheduledTask) (k : String) (d : Dict ScheduledTask) (t : ScheduledTask)
    → Dict.get k d ≡ some t
    → Dict.get k (map (λ item. (item.0, f item.1)) d) ≡ some (f t)
unfolding Dict.get
get-map f k [] t h = absurd (ground arith)
get-map f k ((j, u) ∷ d) t h = elim (Bool-cases (str_eq j k)) [
  | inl e ↦ rw e (ground arith)
  | inr e ↦ rw e (get-map f k d t (rw e at h))
]

begun_lem :
    (now : ℕ) (b : Bool) (t : ScheduledTask)
    → (is_running (if b then begin_run now t else t).status ≡ (is_running t.status || b))
      × ((if b then begin_run now t else t).last_run
          ≡ (if b && not (is_running t.status) then some now else t.last_run))
      × ((if b then begin_run now t else t).next_run ≡ t.next_run)
unfolding begin_run
begun_lem now true t = elim (Bool-cases (is_running t.status)) [
  | inl on ↦ simp on (refl, refl, refl)
  | inr off ↦ simp off (refl, refl, refl)
]
begun_lem now false t = elim (Bool-cases (is_running t.status)) [
  | inl on ↦ simp on (refl, refl, refl)
  | inr off ↦ simp off (refl, refl, refl)
]

-- A round of the loop starts exactly the tasks that are enabled, due, with a handler, and not running
-- yet, and only while the scheduler runs: afterwards a task is running if it was before or is such a
-- task; its time of the last run is the present one if it was started, and unchanged otherwise; its
-- planned time does not change.
pub tick-starts :
    (now : ℕ) (k : String) (s : TaskScheduler) (t : ScheduledTask)
    → Dict.get k s.tasks ≡ some t
    → (t' : ScheduledTask) × (Dict.get k (tick now s).tasks ≡ some t')
      × (is_running t'.status ≡ (is_running t.status || (s.loop_runs && starts now s t)))
      × (t'.last_run ≡ (
          if (s.loop_runs && starts now s t) && not (is_running t.status)
          then some now
          else t.last_run))
      × (t'.next_run ≡ t.next_run)
unfolding tick
tick-starts now k s t found = elim (Bool-cases s.loop_runs) [
  | inl on ↦
      let round : (tick now s).tasks
          ≡ map (λ item. (item.0, if starts now s item.1 then begin_run now item.1 else item.1))
              s.tasks =
        simp on refl in
      let (status, ran, plan) = begun_lem now (starts now s t) t in
      (
        if starts now s t then begin_run now t else t,
        rw round (get-map (λ u. if starts now s u then begin_run now u else u) k s.tasks t found),
        simp on status,
        simp on ran,
        plan,
      )
  | inr off ↦
      let (status, ran, plan) = begun_lem now false t in
      (t, simp off found, simp off status, simp off ran, plan)
]
