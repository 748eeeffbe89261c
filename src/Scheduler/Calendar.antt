-- ===== src/Scheduler/Calendar.antt =====
-- Standard library: the parts of Python's naive `datetime` that the scheduler uses. A time is a number of microseconds
-- since the start of 1970, a day a number of days since then.
use xzcccc_smart_media.Base.{
  ℕ, zero, suc, ◌+◌, ◌*◌, ◌/◌, ◌%◌, ◌≤◌, ◌<◌, ◌≡◌, Bool, false, not, ◌&&◌, ◌||◌, ◌==◌, ltb,
  if◌then◌else◌, seconds, arith, Bool-cases, inl, inr,
}

abbrev pub minute : ℕ
minute = seconds 60

abbrev pub hour : ℕ
hour = seconds 3600

abbrev pub day : ℕ
day = seconds 86400

-- `now.weekday()`: the first of January 1970 was a Thursday.
abbrev pub weekday : ℕ → ℕ
weekday d = (d + 3) % 7

abbrev pub is_leap : ℕ → Bool
is_leap year = (year % 4 == 0) && (not (year % 100 == 0) || (year % 400 == 0))

unfoldable pub month_length : ℕ → ℕ → ℕ
month_length year month =
    if month == 2
    then (if is_leap year then 29 else 28)
    else if (month == 4) || (month == 6) || (month == 9) || (month == 11)
    then 30
    else 31

-- The month after, as year and month.
abbrev pub next_month : ℕ → ℕ → ℕ × ℕ
next_month year month = if month == 12 then (year + 1, 1) else (year, month + 1)

-- The first day of the month of a day, from a month that begins at `start` onwards, with fuel for the
-- months.
unfoldable pub month_start_from : ℕ → ℕ → ℕ → ℕ → ℕ → ℕ
month_start_from zero year month start d = start
month_start_from (suc fuel) year month start d =
    let (year', month') = next_month year month in
    let len = month_length year month in
    let rest = month_start_from fuel year' month' (start + len) d in
    if ltb d (start + len) then start else rest

-- The day of Python's `date.replace(day=1)`. A month has 28 days at least, so the fuel is enough.
unfoldable pub month_start : ℕ → ℕ
month_start d = month_start_from (d / 28 + 1) 1970 1 0 d

month_length_bounds :
    (year month : ℕ) → (28 ≤ month_length year month) × (month_length year month ≤ 31)
unfolding month_length
month_length_bounds year month = elim (Bool-cases (month == 2)) [
  | inl feb ↦ rw feb (elim (Bool-cases (is_leap year)) [
    | inl leap ↦ rw leap (omega arith, omega arith)
    | inr common ↦ rw common (omega arith, omega arith)
  ])
  | inr other ↦
      rw other (elim (Bool-cases ((month == 4) || (month == 6) || (month == 9) || (month == 11))) [
        | inl short ↦ rw short (omega arith, omega arith)
        | inr long ↦ rw long (omega arith, omega arith)
      ])
]

month_start_from-le :
    (fuel year month start d : ℕ) → start ≤ month_start_from fuel year month start d
unfolding month_start_from
month_start_from-le zero year month start d = omega arith
month_start_from-le (suc fuel) year month start d =
    let (year', month') = next_month year month in
    let rest = month_start_from-le fuel year' month' (start + month_length year month) d in
    elim (Bool-cases (ltb d (start + month_length year month))) [
      | inl here ↦ rw here (omega arith)
      | inr later ↦ rw later (omega (arith, rest))
    ]

month_start_from_near :
    (fuel year month start d : ℕ)
    → start ≤ d
    → d < start + 28 * fuel
    → (month_start_from fuel year month start d ≤ d)
      × (d < month_start_from fuel year month start d + 31)
unfolding month_start_from
month_start_from_near zero year month start d h enough = absurd (omega arith)
month_start_from_near (suc fuel) year month start d h enough =
    let (year', month') = next_month year month in
    let b = month_length_bounds year month in
    elim (Bool-cases (ltb d (start + month_length year month))) [
      | inl here ↦ rw here (h, ground (arith, b.1))
      | inr later ↦ rw later (
          month_start_from_near fuel year' month' (start + month_length year month) d (ground arith)
            (omega (arith, b.0)))
    ]

-- With this fuel, the first day of a month is not after the day, and less than 31 days before it.
month_start_near : (d : ℕ) → (month_start d ≤ d) × (d < month_start d + 31)
unfolding month_start
month_start_near d = month_start_from_near (d / 28 + 1) 1970 1 0 d (omega arith) (omega arith)

month_start_from_next :
    (f g year month start d x : ℕ)
    → start ≤ d
    → d < start + 28 * f
    → x < start + 28 * g
    → month_start_from f year month start d + 32 ≤ x
    → d < month_start_from g year month start x
unfolding month_start_from
month_start_from_next zero g year month start d x h enough enough' far = absurd (omega arith)
month_start_from_next (suc f) zero year month start d x h enough enough' far =
    absurd (omega (arith, month_start_from-le (suc f) year month start d))
month_start_from_next (suc f) (suc g) year month start d x h enough enough' far =
    let (year', month') = next_month year month in
    let b = month_length_bounds year month in
    let len = month_length year month in
    elim (Bool-cases (ltb d (start + len))) [
      | inl here ↦
          let far' : start + 32 ≤ x = rw here at far in
          let past : ltb x (start + len) ≡ false = ground (arith, b.1) in
          rw past (ground (arith, month_start_from-le g year' month' (start + len) x))
      | inr later ↦
          let far' : month_start_from f year' month' (start + len) d + 32 ≤ x = rw later at far in
          let lower = month_start_from-le f year' month' (start + len) d in
          let past : ltb x (start + len) ≡ false = ground (arith, lower) in
          rw past (
            month_start_from_next f g year' month' (start + len) d x (ground arith)
              (omega (arith, b.0)) (omega (arith, b.0)) far')
    ]

-- A day at least 32 days after the first of a month lies in a later month.
pub month_start_later : (d x : ℕ) → month_start d + 32 ≤ x → d < month_start x
unfolding month_start
month_start_later d x far =
    month_start_from_next (d / 28 + 1) (x / 28 + 1) 1970 1 0 d x (omega arith) (omega arith)
      (omega arith) far
