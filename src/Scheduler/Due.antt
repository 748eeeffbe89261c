-- ===== src/Scheduler/Due.antt =====
-- When a task is due again after a run.
use xzcccc_smart_media.Base.{
  ℕ, ◌+◌, ◌*◌, ◌/◌, ◌%◌, ◌<◌, ◌≡◌, ◌≢◌, refl, true, false, leb, String, str_eq, eq_iff, Option,
  none, some, arith, Bool-cases, Option-cases, inl, inr,
}
use xzcccc_smart_media.Scheduler.Calendar.{
  minute, hour, day, weekday, month_start, month_start_later,
}
use xzcccc_smart_media.Scheduler.Model.{
  ScheduledTask, completed, failed, midnight, days_ahead, next_time, should_run, calculate_next_run,
  finish_run,
}

month_later :
    (now value : ℕ) → 0 < value → now < month_start (month_start (now / day) + 32 * value) * day
month_later now value positive =
    let past = month_start_later (now / day) (month_start (now / day) + 32 * value) (omega arith) in
    omega (arith, past)

-- A time that is computed for a positive interval of any type but the weekly one lies in the future.
next_time-later :
    (now : ℕ) (kind : String) (value at : ℕ)
    → 0 < value
    → kind ≢ "weekly"
    → next_time now kind value ≡ some at
    → now < at
unfolding next_time
next_time-later now kind value at positive other h = elim (Bool-cases (str_eq kind "minute")) [
  | inl a ↦ let e : some (now + value * minute) ≡ some at = rw a at h in ground arith
  | inr a ↦ elim (Bool-cases (str_eq kind "hourly")) [
    | inl b ↦
        let e : some (now / hour * hour + value * hour) ≡ some at = rw (a, b) at h in ground arith
    | inr b ↦ elim (Bool-cases (str_eq kind "daily")) [
      | inl c ↦
          let e : some (midnight now + value * day) ≡ some at = rw (a, b, c) at h in ground arith
      | inr c ↦ elim (Bool-cases (str_eq kind "weekly")) [
        | inl w ↦ absurd (other ((eq_iff kind "weekly").0 w))
        | inr w ↦ elim (Bool-cases (str_eq kind "monthly")) [
          | inl m ↦
              let e : some (month_start (month_start (now / day) + 32 * value) * day) ≡ some at =
                rw (a, b, c, w, m) at h in
              ground (arith, month_later now value positive)
          | inr m ↦ let e : none ≡ some at = rw (a, b, c, w, m) at h in absurd (ground arith)
        ]
      ]
    ]
  ]
]

should_run_planned :
    (now : ℕ) (t : ScheduledTask)
    → ((at : ℕ) → next_time now t.interval_type t.interval_value ≡ some at → now < at)
    → should_run now (calculate_next_run now t) ≡ false
unfolding should_run
should_run_planned now t later =
    elim (Option-cases (next_time now t.interval_type t.interval_value)) [
      | inl never ↦ ground arith
      | inr (at, e) ↦ ground (arith, later at e)
    ]

-- After a run, whether the handler failed or not, a task with a positive interval of any type but the
-- weekly one is not due at the moment the run ends.
pub finish_run_not_due :
    (now : ℕ) (outcome : Option String) (t : ScheduledTask)
    → 0 < t.interval_value
    → t.interval_type ≢ "weekly"
    → should_run now (finish_run now outcome t) ≡ false
unfolding finish_run
finish_run_not_due now none t positive other =
    should_run_planned now (record t { status = completed })
      (λ at. next_time-later now t.interval_type t.interval_value at positive other)
finish_run_not_due now (some message) t positive other =
    should_run_planned now (record t { status = failed; error_message = some message })
      (λ at. next_time-later now t.interval_type t.interval_value at positive other)

-- A weekly task whose weekday is today: its next run is this day's midnight.
weekly_today :
    (now value : ℕ)
    → value % 7 ≡ weekday (now / day)
    → next_time now "weekly" value ≡ some (midnight now)
unfolding next_time
weekly_today now value today =
    let none_ahead : days_ahead value (now / day) ≡ 0 = omega arith in rw none_ahead (ground arith)

-- An enabled weekly task that ends a run on its own weekday is due again at once, and at every moment of
-- that day: it does not wait for the next week.
pub weekly_due_all_day :
    (now later : ℕ) (outcome : Option String) (t : ScheduledTask)
    → t.interval_type ≡ "weekly"
    → t.interval_value % 7 ≡ weekday (now / day)
    → t.enabled ≡ true
    → later / day ≡ now / day
    → should_run later (finish_run now outcome t) ≡ true
unfolding should_run finish_run
weekly_due_all_day now later outcome t weekly today on same = go outcome
  where
    planned : next_time now t.interval_type t.interval_value ≡ some (midnight now)
    planned = rw weekly (weekly_today now t.interval_value today)

    reached : leb (midnight now) later ≡ true
    reached = ground arith

    go : (o : Option String) → should_run later (finish_run now o t) ≡ true
    go none = simp (planned, on, reached) refl
    go (some message) = simp (planned, on, reached) refl
