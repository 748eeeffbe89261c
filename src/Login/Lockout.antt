-- ===== src/Login/Lockout.antt =====
-- Guessing passwords: who gets in, and when an account is locked.
use xzcccc_smart_media.Base.{
  ℕ, ◌+◌, ◌<◌, ◌≡◌, refl, String, List, [], ◌∷◌, Bool, true, false, not, ◌&&◌, none, some, lt→ltb,
  length, All, arith, Bool-cases, inl, inr, eq_iff, ◌∙◌, ap,
}
use xzcccc_smart_media.Dict
use xzcccc_smart_media.Dict.{Dict, get-put}
use xzcccc_smart_media.Login.Account.{
  User, Tables, Answer, authenticated, locked, LockPolicy, minutes, increment_failed_login,
  is_locked, refuse, wrong_password, accept, authenticate_user, account_locked,
}

abbrev pub is_authenticated : Answer → Bool
is_authenticated (authenticated u) = true
is_authenticated _ = false

module _ (verify : String → String → Bool) (policy : LockPolicy) (username : String) where
  not-is_authenticated :
      (now : ℕ) (s : Tables) (u : User)
      → is_authenticated (wrong_password policy now username u s).1 ≡ false
  unfolding wrong_password
  not-is_authenticated now s u = elim (Bool-cases (increment_failed_login policy now u).1) [
    | inl e ↦ rw e refl
    | inr e ↦ rw e refl
  ]

  -- A known user gets in exactly if the account is active, not locked, and the password is right.
  pub authenticated_iff :
      (now : ℕ) (password : String) (s : Tables) (u : User)
      → Dict.get username s.users ≡ some u
      → is_authenticated (authenticate_user verify policy now username password s).1
        ≡ (u.is_active && not (is_locked now u) && verify password u.password_hash)
  unfolding authenticate_user accept
  authenticated_iff now password s u found = elim (Bool-cases u.is_active) [
    | inr off ↦ rw (found, authenticate_user) (rw off refl)
    | inl on ↦ elim (Bool-cases (is_locked now u)) [
      | inl shut ↦ rw (found, authenticate_user) (simp (on, shut) refl)
      | inr unlocked ↦ elim (Bool-cases (verify password u.password_hash)) [
        | inl right ↦ rw (found, authenticate_user) (simp (on, unlocked, right) refl)
        | inr wrong ↦
            rw (found, authenticate_user)
              (simp (on, unlocked, wrong) (not-is_authenticated now s u))
      ]
    ]
  ]

  -- Logins at the given times with the given passwords, one after the other, and their answers.
  unfoldable pub run : List (ℕ × String) → Tables → Tables × List Answer
  run [] s = (s, [])
  run ((now, password) ∷ tries) s =
      let (s', a) = authenticate_user verify policy now username password s in
      let (s'', rest) = run tries s' in (s'', a ∷ rest)

  -- Before the end of the lock of an active account every login is answered that it is locked, and
  -- none changes a user: neither the lock nor the count of failures.
  pub lock_holds :
      (tries : List (ℕ × String)) (s : Tables) (u : User) (until : ℕ)
      → Dict.get username s.users ≡ some u
      → u.is_active ≡ true
      → u.locked_until ≡ some until
      → All (λ t. t.0 < until) tries
      → ((run tries s).0.users ≡ s.users) × All (λ a. a ≡ locked) (run tries s).1
  unfolding run
  lock_holds [] s u until found on shut before = (refl, tt)
  lock_holds ((now, password) ∷ tries) s u until found on shut before =
      let closed : is_locked now u ≡ true =
        unfold is_locked in rw shut (lt→ltb now until before.0) in
      let refused : authenticate_user verify policy now username password s
          ≡ (refuse username account_locked s, locked) =
        unfold authenticate_user in rw (found, authenticate_user) (simp (on, closed) refl) in
      let rest =
        lock_holds tries (refuse username account_locked s) u until found on shut before.1 in
      rw refused (rest.0, (refl, rest.1))

  get-wrong_password :
      (now : ℕ) (s : Tables) (u : User)
      → Dict.get username (wrong_password policy now username u s).0.users
        ≡ some (increment_failed_login policy now u).0
  unfolding wrong_password
  get-wrong_password now s u =
      let put = get-put username username (increment_failed_login policy now u).0 s.users in
      elim (Bool-cases (increment_failed_login policy now u).1) [
        | inl e ↦ rw e (rw (put, (eq_iff username username).1 refl) refl)
        | inr e ↦ rw e (rw (put, (eq_iff username username).1 refl) refl)
      ]

  -- What a wrong password does to an active account that is not locked.
  wrong_step :
      (now : ℕ) (password : String) (s : Tables) (u : User)
      → Dict.get username s.users ≡ some u
      → u.is_active ≡ true
      → is_locked now u ≡ false
      → verify password u.password_hash ≡ false
      → Dict.get username (authenticate_user verify policy now username password s).0.users
        ≡ some (increment_failed_login policy now u).0
  unfolding authenticate_user
  wrong_step now password s u found on unlocked wrong =
      rw (found, authenticate_user) (simp (on, unlocked, wrong) (get-wrong_password now s u))

  abbrev pub final : ℕ × String → List (ℕ × String) → ℕ
  final last [] = last.0
  final last (next ∷ later) = final next later

  -- The user after `max_login_attempts` failures in a row, the last one at `now`.
  abbrev pub shut_out : ℕ → User → User
  shut_out now u = record u {
    failed_login_attempts = policy.max_login_attempts;
    locked_until = some (now + minutes policy.lock_duration_minutes);
  }

  increment_last :
      (now : ℕ) (u : User)
      → u.failed_login_attempts + 1 ≡ policy.max_login_attempts
      → (increment_failed_login policy now u).0 ≡ shut_out now u
  unfolding increment_failed_login
  increment_last now u e = ground arith

  increment_more :
      (now : ℕ) (u : User)
      → u.failed_login_attempts + 1 < policy.max_login_attempts
      → (increment_failed_login policy now u).0
        ≡ record u { failed_login_attempts = u.failed_login_attempts + 1 }
  unfolding increment_failed_login
  increment_more now u e = ground arith

  -- Wrong passwords lock the account.
  wrong_passwords :
      (first : ℕ × String) (later : List (ℕ × String)) (s : Tables) (u : User)
      → Dict.get username s.users ≡ some u
      → u.is_active ≡ true
      → u.locked_until ≡ none
      → All (λ t. verify t.1 u.password_hash ≡ false) (first ∷ later)
      → u.failed_login_attempts + length (first ∷ later) ≡ policy.max_login_attempts
      → Dict.get username (run (first ∷ later) s).0.users ≡ some (shut_out (final first later) u)
  unfolding run
  wrong_passwords first [] s u found on unlocked wrong n =
      wrong_step first.0 first.1 s u found on (unfold is_locked in rw unlocked refl) wrong.0
      ∙ ap some (increment_last first.0 u (omega arith))
  wrong_passwords first (next ∷ later) s u found on unlocked wrong n =
      let more = increment_more first.0 u (omega arith) in
      let found' =
        wrong_step first.0 first.1 s u found on (unfold is_locked in rw unlocked refl) wrong.0
        ∙ ap some more in
      wrong_passwords next later (authenticate_user verify policy first.0 username first.1 s).0
        (record u { failed_login_attempts = u.failed_login_attempts + 1 }) found' on unlocked
        wrong.1 (omega arith)

  -- Guessing: a known, active account without a lock, after as many wrong passwords in a row as are left
  -- to the maximum, is locked: each login that follows, at a time before the last failure's plus the
  -- lock's duration, is answered that the account is locked, whatever its password.
  pub guessing_is_shut_out :
      (first : ℕ × String) (later tries : List (ℕ × String)) (s : Tables) (u : User)
      → Dict.get username s.users ≡ some u
      → u.is_active ≡ true
      → u.locked_until ≡ none
      → All (λ t. verify t.1 u.password_hash ≡ false) (first ∷ later)
      → u.failed_login_attempts + length (first ∷ later) ≡ policy.max_login_attempts
      → All (λ t. t.0 < final first later + minutes policy.lock_duration_minutes) tries
      → All (λ a. a ≡ locked) (run tries (run (first ∷ later) s).0).1
  guessing_is_shut_out first later tries s u found on unlocked wrong n within =
      let shut = wrong_passwords first later s u found on unlocked wrong n in
      (lock_holds tries (run (first ∷ later) s).0 (shut_out (final first later) u)
        (final first later + minutes policy.lock_duration_minutes) shut on refl within).1
