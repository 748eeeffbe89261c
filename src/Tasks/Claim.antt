-- ===== src/Tasks/Claim.antt =====
-- Who gets a task: `claim_next_task` of task_queue.py, alone and against another worker.
use xzcccc_smart_media.Base.{
  ℕ, ◌≡◌, refl, String, [], ◌∷◌, Bool, true, false, none, some, if◌then◌else◌, str_eq, keep, arith,
  Bool-cases, Option-cases, inl, inr, ◌⊎◌, All, All-imp, ap, ◌∙◌,
}
use xzcccc_smart_media.Tasks.Model.{Task}
use xzcccc_smart_media.Tasks.Table.{
  Table, get_task, modify, UniqueIds, get_task-modify, update_present, update_absent,
  UniqueIds-modify,
}
use xzcccc_smart_media.Tasks.Queue.{
  ok, claimable, earlier, oldest, claim_candidate, lease, claim_commit, claim_next_task,
}

module _ (owner : String) (secs now i : ℕ) where
  -- The second half of a claim takes the row exactly if it is still claimable.
  pub claim_commit_row :
      (t : Task) (table : Table)
      → UniqueIds table
      → get_task i table ≡ some t
      → claim_commit owner secs now i table ≡ (
          if claimable now t
          then (modify i (lease owner secs now) table, some (lease owner secs now t))
          else (table, none))
  unfolding claim_commit lease
  claim_commit_row t table u h = ground (
    arith,
    update_present i (claimable now) (lease owner secs now) t table u h,
    get_task-modify i (lease owner secs now) t table refl h,
  )

  claim_commit_absent :
      (table : Table)
      → get_task i table ≡ none
      → claim_commit owner secs now i table ≡ (table, none)
  unfolding claim_commit
  claim_commit_absent table h =
      ground (arith, update_absent i (claimable now) (lease owner secs now) table h)

  -- A claim that returns a task has found its row claimable.
  claim_commit-some :
      (table table' : Table) (t : Task)
      → UniqueIds table
      → claim_commit owner secs now i table ≡ (table', some t)
      → (v : Task) × (get_task i table ≡ some v) × (table' ≡ modify i (lease owner secs now) table)
  claim_commit-some table table' t u h = elim (Option-cases (get_task i table)) [
    | inl gone ↦ absurd (ground (arith, claim_commit_absent table gone))
    | inr (v, row) ↦ (v, row, ground (arith, claim_commit_row v table u row))
  ]

-- A leased row is not claimable at any time.
lease-claimable :
    (owner : String) (secs now later : ℕ) (t : Task)
    → claimable later (lease owner secs now t) ≡ false
unfolding lease claimable
lease-claimable owner secs now later t = refl

not-earlier_trans : (a b c : Task) → earlier a b ≡ false → earlier b c ≡ false → earlier a c ≡ false
unfolding earlier
not-earlier_trans a b c h k = ground arith

not-earlier_refl : (a : Task) → earlier a a ≡ false
unfolding earlier
not-earlier_refl a = ground arith

earlier_asymm : (a b : Task) → earlier a b ≡ true → earlier b a ≡ false
unfolding earlier
earlier_asymm a b h = ground arith

module _ (p : Task → Bool) where
  abbrev Before : Task → Task → Type 0
  Before c t = p t ≡ true → earlier t c ≡ false

  oldest-none : (ts : Table) → oldest (keep p ts) ≡ none → All (λ t. p t ≡ false) ts
  unfolding oldest keep
  oldest-none [] h = tt
  oldest-none (t ∷ ts) h = elim (Bool-cases (p t)) [
    | inl e ↦ absurd (ground arith)
    | inr e ↦ (e, oldest-none ts (ground arith))
  ]

  oldest_found :
      (c : Task) (ts : Table)
      → UniqueIds ts
      → oldest (keep p ts) ≡ some c
      → (get_task c.id ts ≡ some c) × (p c ≡ true)
  unfolding oldest keep get_task
  oldest_found c [] u h = absurd (ground arith)
  oldest_found c (t ∷ ts) u h = ground (arith, oldest_found c ts u.1)

  oldest_first : (c : Task) (ts : Table) → oldest (keep p ts) ≡ some c → All (Before c) ts
  unfolding oldest keep
  oldest_first c [] h = tt
  oldest_first c (t ∷ ts) h = elim (Bool-cases (p t)) [
    | inr skip ↦ (λ e. cc, oldest_first c ts (ground arith))
    | inl take ↦ elim (Option-cases (oldest (keep p ts))) [
      | inl empty ↦
          let e : t ≡ c = ground arith in
          (
            λ _. rw (← e) (not-earlier_refl t),
            All-imp (λ v. p v ≡ false) (Before c) (λ v not_p is_p. cc) ts (oldest-none ts empty),
          )
      | inr (u, found) ↦ elim (Bool-cases (earlier u t)) [
        | inl first ↦
            let e : u ≡ c = ground arith in
            (λ _. rw (← e) (earlier_asymm u t first), oldest_first c ts (ground arith))
        | inr later ↦
            let e : t ≡ c = ground arith in
            (
              λ _. rw (← e) (not-earlier_refl t),
              All-imp (Before u) (Before c)
                  (λ v before is_p. rw (← e) (not-earlier_trans v u t (before is_p) later)) ts
                  (oldest_first u ts found),
            )
      ]
    ]
  ]

-- `claim_next_task` has a non-empty owner. If no row is claimable it returns None and writes
-- nothing. Otherwise it leases one claimable row to that owner, its attempt counted once more, and
-- no claimable row stands before that one in the order by creation time and id.
abbrev pub ClaimSpec : String → ℕ → ℕ → Table → Type 0
ClaimSpec owner secs now table =
    (All (λ t. claimable now t ≡ false) table
      × (claim_next_task owner secs now table ≡ ok (table, none)))
    ⊎ ((c : Task) × (get_task c.id table ≡ some c)
        × (claimable now c ≡ true)
        × All (λ t. claimable now t ≡ true → earlier t c ≡ false) table
        × (claim_next_task owner secs now table
            ≡ ok (modify c.id (lease owner secs now) table, some (lease owner secs now c))))

-- A claim by a worker with a name, on a table whose primary keys differ, returns the oldest
-- claimable task, leased to that worker, and writes that row only; it returns None, and writes
-- nothing, exactly if no row is claimable.
pub claim_next_task-ClaimSpec :
    (owner : String) (secs now : ℕ) (table : Table)
    → UniqueIds table
    → str_eq owner "" ≡ false
    → ClaimSpec owner secs now table
unfolding claim_next_task claim_candidate
claim_next_task-ClaimSpec owner secs now table u named =
    elim (Option-cases (oldest (keep (claimable now) table))) [
      | inl empty ↦ inl (oldest-none (claimable now) table empty, rw (named, empty))
      | inr (c, found) ↦
          let (row, is) = oldest_found (claimable now) c table u found in
          inr (
            c,
            row,
            is,
            oldest_first (claimable now) c table found,
            rw (named, found) (ap ok (claim_commit_row owner secs now c.id c table u row ∙ rw is)),
          )
    ]

-- Two workers that read the same candidate do not both get it: after one of them has committed its
-- claim, the other one's UPDATE matches no row, whatever its clock says, and it writes nothing.
pub claim_commit_once :
    (owner other : String) (secs now secs' now' i : ℕ) (table table' : Table) (t : Task)
    → UniqueIds table
    → claim_commit owner secs now i table ≡ (table', some t)
    → claim_commit other secs' now' i table' ≡ (table', none)
unfolding lease
claim_commit_once owner other secs now secs' now' i table table' t u h =
    let (v, row, e) = claim_commit-some owner secs now i table table' t u h in
    rw e (
      claim_commit_row other secs' now' i (lease owner secs now v)
        (modify i (lease owner secs now) table)
        (UniqueIds-modify i (lease owner secs now) (λ x. refl) table u)
        (get_task-modify i (lease owner secs now) v table refl row)
      ∙ rw (lease-claimable owner secs now now' v))
