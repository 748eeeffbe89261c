-- ===== src/Tasks/Recovery.antt =====
-- Lost workers, failures and cancellations: `recover_expired_leases`, `record_task_failure` and
-- `cancel_task` of task_queue.py, seen by the operations that follow them.
use xzcccc_smart_media.Base.{
  seconds, ℕ, suc, ◌+◌, ◌-◌, ◌*◌, ◌^◌, ◌≤◌, ◌≡◌, refl, min, String, [], ◌∷◌, true, false, not, ◌&&◌,
  none, some, leb, ltb, arith, Option-cases, inl, inr, ap, ◌∙◌,
}
use native.Mathlib.Nat.{pow-suc}
use xzcccc_smart_media.Tasks.Model.{
  is_terminal, is_active, is_cancel_requested, Task, attempt_limit,
}
use xzcccc_smart_media.Tasks.Table.{
  Table, get_task, modify, update_where, UniqueIds, get_task-modify, get_task-update_where,
  UniqueIds-update_where, UniqueIds-modify, update_present,
}
use xzcccc_smart_media.Tasks.Queue.{
  claimable, claim_commit, is_owned_by, heartbeat_task, lease_expired, recover_row,
  recover_expired_leases, retry_delay, fail_row, record_task_failure, cancel_row, cancel_task,
}
use xzcccc_smart_media.Tasks.Claim.{claim_commit_row}

recover_row-lease_expired :
    (now later : ℕ) (t : Task) → lease_expired later (recover_row now t) ≡ false
unfolding lease_expired recover_row
recover_row-lease_expired now later t = ground arith

-- A second recovery at the time of the first changes no row and counts none.
pub recover_twice :
    (now : ℕ) (table : Table)
    → let after = (recover_expired_leases now table).0 in
      recover_expired_leases now after ≡ (after, 0)
unfolding recover_expired_leases update_where
recover_twice now [] = refl
recover_twice now (t ∷ ts) =
    ground (arith, recover_twice now ts, recover_row-lease_expired now now t)

pub recover_row-id : (now : ℕ) (t : Task) → (recover_row now t).id ≡ t.id
unfolding recover_row
recover_row-id now t = ground arith

recover_row-owner : (now : ℕ) (t : Task) → (recover_row now t).lease_owner ≡ none
unfolding recover_row
recover_row-owner now t = ground arith

module _ (owner : String) (id : ℕ) (t : Task) (table : Table) where
  heartbeat_refused :
      (secs now : ℕ)
      → UniqueIds table
      → get_task id table ≡ some t
      → is_owned_by owner t ≡ false
      → heartbeat_task id owner secs now table ≡ (table, false)
  unfolding heartbeat_task
  heartbeat_refused secs now u found foreign = ground (
    arith,
    update_present id (λ v. is_owned_by owner v && is_active v.status)
        (λ v. record v { heartbeat_at = some now; lease_until = some (now + seconds secs) }) t table
        u found,
  )

  report_refused :
      (message : String) (now base most : ℕ)
      → get_task id table ≡ some t
      → is_owned_by owner t ≡ false
      → record_task_failure id owner message now base most table ≡ (table, false)
  unfolding record_task_failure
  report_refused message now base most found foreign = ground arith

-- Once the lease of a task has been recovered, the worker that held it is shut out, whoever it is:
-- its heartbeat and its failure report return False and write nothing.
pub recover-shuts_out :
    (now : ℕ) (owner message : String) (secs later base most id : ℕ) (table : Table) (t : Task)
    → UniqueIds table
    → get_task id table ≡ some t
    → lease_expired now t ≡ true
    → let after = (recover_expired_leases now table).0 in
      (heartbeat_task id owner secs later after ≡ (after, false))
      × (record_task_failure id owner message later base most after ≡ (after, false))
unfolding recover_expired_leases
recover-shuts_out now owner message secs later base most id table t u found expired =
    let p = lease_expired now in
    let f = recover_row now in
    let row : get_task id (update_where p f table).0 ≡ some (f t) =
      get_task-update_where p f (recover_row-id now) id t table found ∙ rw expired in
    let unique = UniqueIds-update_where p f (recover_row-id now) table u in
    let foreign : is_owned_by owner (f t) ≡ false = rw recover_row-owner in
    (
      heartbeat_refused owner id (f t) (update_where p f table).0 secs later unique row foreign,
      report_refused owner id (f t) (update_where p f table).0 message later base most row foreign,
    )

retry_delay-le : (base most attempt : ℕ) → retry_delay base most attempt ≤ most
unfolding retry_delay
retry_delay-le base most attempt = omega arith

retry_delay-suc : (base most n : ℕ) → retry_delay base most (suc n) ≡ min (base * 2 ^ n) most
unfolding retry_delay
retry_delay-suc base most n =
    let e : suc n - 1 ≡ n = omega arith in ground (arith, ap (λ (k : ℕ). base * 2 ^ k) e)

-- After the first retry the delay doubles until it meets the cap, and it never passes the cap.
pub retry_delay_doubles :
    (base most n : ℕ)
    → (retry_delay base most (suc (suc n)) ≡ min (2 * retry_delay base most (suc n)) most)
      × (retry_delay base most (suc n) ≤ retry_delay base most (suc (suc n)))
      × (retry_delay base most (suc n) ≤ most)
retry_delay_doubles base most n =
    let double : base * 2 ^ suc n ≡ 2 * (base * 2 ^ n) = rw pow-suc (grind arith) in
    rw (retry_delay-suc base most n)
      (rw (retry_delay-suc base most (suc n)) (omega arith, omega arith, omega arith))

-- When a task whose run failed, or was lost, may be leased again. After a failure report: if an
-- attempt is left, from the end of the delay on, and otherwise never. After a recovery: if an
-- attempt is left and nobody asked to cancel it, from the time of the recovery on.
pub retry_claimable :
    (message : String) (now later base most : ℕ) (t : Task)
    → (claimable later (fail_row message now base most t) ≡ (
        ltb t.attempt (attempt_limit t)
        && leb (now + seconds (retry_delay base most t.attempt)) later))
      × (claimable later (recover_row now t) ≡ (
          not (is_cancel_requested t.status) && (ltb t.attempt (attempt_limit t) && leb now later)))
unfolding claimable fail_row recover_row
retry_claimable message now later base most t = (ground arith, ground arith)

cancel_row-claimable :
    (now later : ℕ) (t : Task)
    → is_terminal t.status ≡ false
    → claimable later (cancel_row now t) ≡ false
unfolding claimable cancel_row
cancel_row-claimable now later t h = ground arith

pub cancel_row-id : (now : ℕ) (t : Task) → (cancel_row now t).id ≡ t.id
unfolding cancel_row
cancel_row-id now t = ground arith

pub fail_row-id :
    (message : String) (now base most : ℕ) (t : Task) → (fail_row message now base most t).id ≡ t.id
unfolding fail_row
fail_row-id message now base most t = ground arith

cancel_task-true :
    (id now : ℕ) (table table' : Table)
    → cancel_task id now table ≡ (table', true)
    → (t : Task) × (get_task id table ≡ some t)
      × (is_terminal t.status ≡ false)
      × (table' ≡ modify id (cancel_row now) table)
unfolding cancel_task
cancel_task-true id now table table' h = elim (Option-cases (get_task id table)) [
  | inl gone ↦ absurd (ground arith)
  | inr (t, found) ↦ (t, found, ground arith, ground arith)
]

-- A task whose cancellation was accepted is not leased any more: a claim that commits after it, with
-- a candidate that was read before it, gets nothing and writes nothing.
pub cancel-claim_commit :
    (id now : ℕ) (owner : String) (secs later : ℕ) (table table' : Table)
    → UniqueIds table
    → cancel_task id now table ≡ (table', true)
    → claim_commit owner secs later id table' ≡ (table', none)
cancel-claim_commit id now owner secs later table table' u h =
    let (t, found, alive, e) = cancel_task-true id now table table' h in
    let row = get_task-modify id (cancel_row now) t table (cancel_row-id now t) found in
    rw e (
      claim_commit_row owner secs later id (cancel_row now t) (modify id (cancel_row now) table)
        (UniqueIds-modify id (cancel_row now) (cancel_row-id now) table u) row
      ∙ rw (cancel_row-claimable now later t alive))
