-- ===== src/RateLimit/Cleanup.antt =====
-- Whom the limiter forgets, and how long a block holds.
use xzcccc_smart_media.Base.{
  ℕ, ◌+◌, ◌-◌, ◌/◌, ◌<◌, ◌≡◌, refl, seconds, String, List, [], ◌∷◌, ◌++◌, Bool, true, false, not,
  ◌||◌, some, ltb, leb, if◌then◌else◌, keep, any, length, arith, Bool-cases, Option-cases, inl, inr,
  ◌⊎◌, All, str_eq, ap, ◌∙◌,
}
use xzcccc_smart_media.Dict
use xzcccc_smart_media.Dict.{Dict, get-put}
use xzcccc_smart_media.RateLimit.Limiter.{
  RateLimitConfig, ClientState, new_client, RateLimiter, still_blocked, now_blocked, recent,
  check_client, is_idle, cleanup_if_needed, state_of, check_rate_limit,
}

blocked_state :
    (config : RateLimitConfig) (now d : ℕ) (s s' : ClientState)
    → check_client config now s ≡ (s', now_blocked d)
    → (s'.blocked_until ≡ now + seconds d) × (d ≡ config.block_duration)
unfolding check_client
blocked_state config now d s s' h = ground arith

-- A client who is blocked for `config.block_duration` seconds is refused until exactly the end of
-- that time, with no change to its state, and is told the whole seconds that are left; from the end
-- on the verdict is that of a client who was never blocked.
pub block_holds :
    (config config' : RateLimitConfig) (now later d : ℕ) (s s' : ClientState)
    → check_client config now s ≡ (s', now_blocked d)
    → (d ≡ config.block_duration)
      × ((check_client config' later s').1 ≡ (
          if ltb later (now + seconds d)
          then still_blocked ((now + seconds d - later) / 1000000)
          else (check_client config' later (record s' { blocked_until = 0 })).1))
      × ((if ltb later (now + seconds d) then (check_client config' later s').0 else s') ≡ s')
block_holds config config' now later d s s' h =
    let (until, same) = blocked_state config now d s s' h in
    (same, unfold check_client in ground arith, unfold check_client in ground arith)

abbrev nonempty : List ℕ → Bool
nonempty [] = false
nonempty (x ∷ xs) = true

nonempty_append : (xs : List ℕ) (x : ℕ) → nonempty (xs ++ x ∷ []) ≡ true
nonempty_append [] x = refl
nonempty_append (y ∷ xs) x = refl

nonempty_of_length : (n : ℕ) (xs : List ℕ) → 0 < n → leb n (length xs) ≡ true → nonempty xs ≡ true
nonempty_of_length n [] pos h = ground arith
nonempty_of_length n (x ∷ xs) pos h = refl

abbrev pub has_request : ClientState → Bool
has_request s = nonempty s.requests

is_idle-has_request : (now : ℕ) (s : ClientState) → has_request s ≡ true → is_idle now s ≡ false
is_idle-has_request now s h = ground arith

abbrev pub IsBusy : Dict ClientState → Type 0
IsBusy = All (λ item. has_request item.1 ≡ true)

cleanup-IsBusy :
    (now : ℕ) (d : Dict ClientState) → IsBusy d → keep (λ item. not (is_idle now item.1)) d ≡ d
unfolding keep
cleanup-IsBusy now [] h = refl
cleanup-IsBusy now ((k, s) ∷ d) h =
    rw (is_idle-has_request now s h.0) (ap (◌∷◌ (k, s)) (cleanup-IsBusy now d h.1))

check_client-has_request :
    (config : RateLimitConfig) (now : ℕ) (s : ClientState)
    → 0 < config.requests
    → (has_request s ≡ true) ⊎ (s ≡ new_client)
    → has_request (check_client config now s).0 ≡ true
unfolding check_client
check_client-has_request config now s pos h = ground (
  arith,
  nonempty_append (recent config now s.requests) now,
  nonempty_of_length config.requests (recent config now s.requests) pos,
)

IsBusy-put :
    (k : String) (s : ClientState) (d : Dict ClientState)
    → has_request s ≡ true
    → IsBusy d
    → IsBusy (Dict.put k s d)
unfolding Dict.put
IsBusy-put k s [] b h = (b, tt)
IsBusy-put k s ((j, x) ∷ d) b h = elim (Bool-cases (str_eq j k)) [
  | inl e ↦ rw e (b, h.1)
  | inr e ↦ rw e (h.0, IsBusy-put k s d b h.1)
]

IsBusy-get :
    (k : String) (s : ClientState) (d : Dict ClientState)
    → IsBusy d
    → Dict.get k d ≡ some s
    → has_request s ≡ true
unfolding Dict.get
IsBusy-get k s [] h e = absurd (ground arith)
IsBusy-get k s ((j, x) ∷ d) h e = ground (arith, IsBusy-get k s d h.1)

-- One call of `_check_rate_limit`.
pub record Check : Type 0 where
  pub client : String
  pub config : RateLimitConfig
  pub at : ℕ

unfoldable pub run_checks : List Check → RateLimiter → RateLimiter
run_checks [] l = l
run_checks (c ∷ cs) l = run_checks cs (check_rate_limit c.client c.config c.at l).0

cleanup_states :
    (now : ℕ) (l : RateLimiter)
    → IsBusy l.client_states
    → (cleanup_if_needed now l).client_states ≡ l.client_states
unfolding cleanup_if_needed
cleanup_states now l busy = ground (arith, cleanup-IsBusy now l.client_states busy)

state_of-IsBusy :
    (id : String) (l : RateLimiter)
    → IsBusy l.client_states
    → (has_request (state_of id l) ≡ true) ⊎ (state_of id l ≡ new_client)
state_of-IsBusy id l busy = elim (Option-cases (Dict.get id l.client_states)) [
  | inl unknown ↦ inr (rw unknown)
  | inr (s, found) ↦ inl (rw found (IsBusy-get id s l.client_states busy found))
]

pub check_keeps :
    (id : String) (config : RateLimitConfig) (now : ℕ) (l : RateLimiter)
    → 0 < config.requests
    → IsBusy l.client_states
    → let l' = (check_rate_limit id config now l).0 in
      IsBusy l'.client_states
      × ((j : String)
          → Dict.get j l'.client_states ≡ (
              if str_eq id j
              then some (check_client config now (state_of id l)).0
              else Dict.get j l.client_states))
unfolding check_rate_limit
check_keeps id config now l pos busy =
    let s = (check_client config now (state_of id l)).0 in
    let served : has_request s ≡ true =
      check_client-has_request config now (state_of id l) pos (state_of-IsBusy id l busy) in
    rw (cleanup_states now l busy)
      (IsBusy-put id s l.client_states served busy, λ j. get-put id j s l.client_states)

-- Whoever the limiter has checked it never forgets: if all limits are positive and every state has a
-- request at first, then whenever checks are made, the clients with a state are those that had one
-- and those that were checked, although every check runs the cleanup.
pub run_checks-contains :
    (checks : List Check) (l : RateLimiter) (j : String)
    → All (λ c. 0 < c.config.requests) checks
    → IsBusy l.client_states
    → Dict.contains j (run_checks checks l).client_states
      ≡ (any (λ c. str_eq c.client j) checks || Dict.contains j l.client_states)
unfolding run_checks any
run_checks-contains [] l j pos busy = refl
run_checks-contains (c ∷ cs) l j pos busy =
    let (busy', known) = check_keeps c.client c.config c.at l pos.0 busy in
    run_checks-contains cs (check_rate_limit c.client c.config c.at l).0 j pos.1 busy'
    ∙ ground (arith, known j)
