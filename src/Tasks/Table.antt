-- ===== src/Tasks/Table.antt =====
-- The table of tasks as the queries of task_queue.py use it: rows found by primary key, changed
-- one at a time, or changed wherever a condition holds.
use xzcccc_smart_media.Base.{
  ℕ, suc, ◌≡◌, refl, ◌&&◌, List, [], ◌∷◌, ◌++◌, Bool, true, false, Option, none, some, ◌==◌,
  if◌then◌else◌, arith, All, Bool-cases, inl, inr,
}
use mathlib.Core.Path.{subst}
use xzcccc_smart_media.Tasks.Model.{Task}

abbrev pub Table : Type 0
Table = List Task

-- `db.query(Task).filter(Task.id == task_id).first()`
unfoldable pub get_task : ℕ → Table → Option Task
get_task task_id [] = none
get_task task_id (t ∷ ts) = if t.id == task_id then some t else get_task task_id ts

-- An object of the session is changed and committed: the row with its primary key is written.
unfoldable pub modify : ℕ → (Task → Task) → Table → Table
modify task_id f [] = []
modify task_id f (t ∷ ts) =
    let rest = modify task_id f ts in if t.id == task_id then f t ∷ rest else t ∷ rest

-- `query.filter(p).update(f)`: the table after it, and the number of rows that it matched.
unfoldable pub update_where : (Task → Bool) → (Task → Task) → Table → Table × ℕ
update_where p f [] = ([], 0)
update_where p f (t ∷ ts) =
    let (rest, n) = update_where p f ts in if p t then (f t ∷ rest, suc n) else (t ∷ rest, n)

-- `db.delete(task)`
unfoldable pub delete_row : ℕ → Table → Table
delete_row task_id [] = []
delete_row task_id (t ∷ ts) =
    let rest = delete_row task_id ts in if t.id == task_id then rest else t ∷ rest

-- The primary key: no two rows have one id.
abbrev pub UniqueIds : Table → Type 0
UniqueIds [] = Unit
UniqueIds (t ∷ ts) = (get_task t.id ts ≡ none) × UniqueIds ts

pub get_task-modify :
    (i : ℕ) (f : Task → Task) (t : Task) (ts : Table)
    → (f t).id ≡ t.id
    → get_task i ts ≡ some t
    → get_task i (modify i f ts) ≡ some (f t)
unfolding get_task modify
get_task-modify i f t [] same h = ground arith
get_task-modify i f t (u ∷ ts) same h = ground (arith, get_task-modify i f t ts same)

-- A row that is found has the id that was asked for.
pub id-get_task : (i : ℕ) (t : Task) (ts : Table) → get_task i ts ≡ some t → t.id ≡ i
unfolding get_task
id-get_task i t [] h = ground arith
id-get_task i t (u ∷ ts) h = ground (arith, id-get_task i t ts)

module _ (P : Task → Type 0) where
  pub All-modify :
      (i : ℕ) (f : Task → Task)
      → ((t : Task) → P t → P (f t))
      → (ts : Table) → All P ts
      → All P (modify i f ts)
  unfolding modify
  All-modify i f keeps [] h = tt
  All-modify i f keeps (t ∷ ts) h =
      let rest = All-modify i f keeps ts h.1 in
      elim (t.id == i) as (λ b. All P (if b then f t ∷ modify i f ts else t ∷ modify i f ts)) [
        | true ↦ (keeps t h.0, rest)
        | false ↦ (h.0, rest)
      ]

  pub All-update_where :
      (p : Task → Bool) (f : Task → Task)
      → ((t : Task) → p t ≡ true → P t → P (f t))
      → (ts : Table) → All P ts
      → All P (update_where p f ts).0
  unfolding update_where
  All-update_where p f keeps [] h = tt
  All-update_where p f keeps (t ∷ ts) h =
      let rest = All-update_where p f keeps ts h.1 in
      elim (Bool-cases (p t)) [ inl e ↦ rw e (keeps t e h.0, rest) | inr e ↦ rw e (h.0, rest) ]

  pub All-delete_row : (i : ℕ) (ts : Table) → All P ts → All P (delete_row i ts)
  unfolding delete_row
  All-delete_row i [] h = tt
  All-delete_row i (t ∷ ts) h =
      let rest = All-delete_row i ts h.1 in
      elim (t.id == i) as (λ b. All P (if b then delete_row i ts else t ∷ delete_row i ts)) [
        | true ↦ rest
        | false ↦ (h.0, rest)
      ]

  pub All-get_task : (i : ℕ) (t : Task) (ts : Table) → All P ts → get_task i ts ≡ some t → P t
  unfolding get_task
  All-get_task i t [] h e = absurd (ground arith)
  All-get_task i t (u ∷ ts) h e = elim (Bool-cases (u.id == i)) [
    | inl same ↦ let p : u ≡ t = ground arith in subst P p h.0
    | inr other ↦ All-get_task i t ts h.1 (ground arith)
  ]

pub modify_absent :
    (i : ℕ) (f : Task → Task) (ts : Table) → get_task i ts ≡ none → modify i f ts ≡ ts
unfolding get_task modify
modify_absent i f [] h = refl
modify_absent i f (t ∷ ts) h = ground (arith, modify_absent i f ts)

-- An UPDATE that names a primary key, `Task.id == i`, and a condition `q` more.
module _ (i : ℕ) (q : Task → Bool) (f : Task → Task) where
  abbrev row_update : Table → Table × ℕ
  row_update = update_where (λ t. (t.id == i) && q t) f

  pub update_absent : (ts : Table) → get_task i ts ≡ none → row_update ts ≡ (ts, 0)
  unfolding get_task update_where
  update_absent [] h = refl
  update_absent (t ∷ ts) h = ground (arith, update_absent ts)

  -- It changes one row or none.
  pub update_present :
      (t : Task) (ts : Table)
      → UniqueIds ts
      → get_task i ts ≡ some t
      → row_update ts ≡ (if q t then (modify i f ts, 1) else (ts, 0))
  unfolding get_task update_where modify
  update_present t [] u h = absurd (ground arith)
  update_present t (v ∷ ts) u h = elim (Bool-cases (v.id == i)) [
    | inl same ↦
        let e : v ≡ t = ground arith in
        let gone : get_task i ts ≡ none = ground arith in
        ground (arith, update_absent ts gone, modify_absent i f ts gone)
    | inr other ↦ ground (arith, update_present t ts u.1)
  ]

-- Writing a row keeps the primary keys.
module _ (i : ℕ) (f : Task → Task) (same : (t : Task) → (f t).id ≡ t.id) where
  get_task-none-modify :
      (j : ℕ) (ts : Table) → get_task j ts ≡ none → get_task j (modify i f ts) ≡ none
  unfolding get_task modify
  get_task-none-modify j [] h = refl
  get_task-none-modify j (t ∷ ts) h = ground (arith, same t, get_task-none-modify j ts)

  pub UniqueIds-modify : (ts : Table) → UniqueIds ts → UniqueIds (modify i f ts)
  unfolding modify
  UniqueIds-modify [] u = tt
  UniqueIds-modify (t ∷ ts) u =
      let rest = UniqueIds-modify ts u.1 in
      let absent = get_task-none-modify t.id ts u.0 in
      elim (Bool-cases (t.id == i)) [
        | inl e ↦ rw e (rw (same t) absent, rest)
        | inr e ↦ rw e (absent, rest)
      ]

-- What an UPDATE does to the row with a given primary key.
module _ (p : Task → Bool) (f : Task → Task) (same : (t : Task) → (f t).id ≡ t.id) where
  pub get_task-update_where :
      (i : ℕ) (t : Task) (ts : Table)
      → get_task i ts ≡ some t
      → get_task i (update_where p f ts).0 ≡ some (if p t then f t else t)
  unfolding get_task update_where
  get_task-update_where i t [] h = absurd (ground arith)
  get_task-update_where i t (u ∷ ts) h = ground (arith, same u, get_task-update_where i t ts)

  get_task-none-update_where :
      (j : ℕ) (ts : Table) → get_task j ts ≡ none → get_task j (update_where p f ts).0 ≡ none
  unfolding get_task update_where
  get_task-none-update_where j [] h = refl
  get_task-none-update_where j (t ∷ ts) h = ground (arith, same t, get_task-none-update_where j ts)

  pub UniqueIds-update_where : (ts : Table) → UniqueIds ts → UniqueIds (update_where p f ts).0
  unfolding update_where
  UniqueIds-update_where [] u = tt
  UniqueIds-update_where (t ∷ ts) u =
      let rest = UniqueIds-update_where ts u.1 in
      let absent = get_task-none-update_where t.id ts u.0 in
      elim (Bool-cases (p t)) [
        | inl e ↦ rw e (rw (same t) absent, rest)
        | inr e ↦ rw e (absent, rest)
      ]

pub get_task-modify_ne :
    (i j : ℕ) (f : Task → Task) (ts : Table)
    → ((t : Task) → (f t).id ≡ t.id)
    → (j == i) ≡ false
    → get_task i (modify j f ts) ≡ get_task i ts
unfolding get_task modify
get_task-modify_ne i j f [] same h = refl
get_task-modify_ne i j f (t ∷ ts) same h =
    ground (arith, same t, get_task-modify_ne i j f ts same h)

pub get_task-append :
    (i : ℕ) (t : Task) (ts us : Table) → get_task i ts ≡ some t → get_task i (ts ++ us) ≡ some t
unfolding get_task
get_task-append i t [] us h = absurd (ground arith)
get_task-append i t (u ∷ ts) us h = ground (arith, get_task-append i t ts us)
