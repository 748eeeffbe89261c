-- ===== src/Login/Account.antt =====
-- `User` of app/models/user.py and `authenticate_user` of app/services/auth_service.py. Times are those
-- of `datetime.utcnow()` in microseconds; `verify` is the password check of `verify_password`.
use xzcccc_smart_media.Base.{
  ℕ, ◌+◌, ◌*◌, ◌-◌, seconds, String, List, [], ◌∷◌, ◌++◌, Bool, true, false, not, Option, none,
  some, ltb, leb, if◌then◌else◌,
}
use xzcccc_smart_media.Dict
use xzcccc_smart_media.Dict.{Dict}

pub record User : Type 0 where
  pub password_hash : String
  pub email : Option String
  pub role : String
  pub is_active : Bool
  pub last_login : Option ℕ
  pub failed_login_attempts : ℕ
  pub locked_until : Option ℕ

-- What one login comes to: the `failure_reason` that is logged, none for a success.
pub data FailureReason : Type 0 where
  user_not_found : FailureReason
  account_disabled : FailureReason
  account_locked : FailureReason
  invalid_password : FailureReason

-- The events of the security audit service.
pub data AuditEvent : Type 0 where
  login_failed : String → FailureReason → AuditEvent
  locked_event : String → ℕ → AuditEvent
  login_success : String → AuditEvent

-- The tables that a login reads and writes: users by their unique name, login attempts and audit
-- events in the order of writing.
pub record Tables : Type 0 where
  pub users : Dict User
  pub attempts : List (String × Option FailureReason)
  pub events : List AuditEvent

-- `(user, None)`, or `(None, message)` with the message that names the reason.
pub data Answer : Type 0 where
  authenticated : User → Answer
  bad_credentials : Answer
  disabled : Answer
  locked : Answer
  now_locked : ℕ → Answer
  tries_left : ℕ → Answer

-- The settings MAX_LOGIN_ATTEMPTS and LOCK_DURATION_MINUTES.
pub record LockPolicy : Type 0 where
  pub max_login_attempts : ℕ
  pub lock_duration_minutes : ℕ

abbrev pub minutes : ℕ → ℕ
minutes n = seconds (n * 60)

unfoldable pub update_last_login : ℕ → User → User
update_last_login now u = record u {
  last_login = some now;
  failed_login_attempts = 0;
  locked_until = none;
}

-- The user, and whether the account is locked now.
unfoldable pub increment_failed_login : LockPolicy → ℕ → User → User × Bool
increment_failed_login policy now u =
    let failed = u.failed_login_attempts + 1 in
    if leb policy.max_login_attempts failed
    then (
      record u {
        failed_login_attempts = failed;
        locked_until = some (now + minutes policy.lock_duration_minutes);
      },
      true,
    )
    else (record u { failed_login_attempts = failed }, false)

unfoldable pub is_locked : ℕ → User → Bool
is_locked now u = elim u.locked_until [ none ↦ false | some t ↦ ltb now t ]

unfoldable pub unlock : User → User
unlock u = record u { failed_login_attempts = 0; locked_until = none }

-- A refused login: the attempt and the event are recorded, the users stay.
abbrev pub refuse : String → FailureReason → Tables → Tables
refuse username reason s = record s {
  attempts = s.attempts ++ (username, some reason) ∷ [];
  events = s.events ++ login_failed username reason ∷ [];
}

-- The branch of a wrong password. The account is not locked after it only if tries are left, so the
-- difference is not cut off.
unfoldable pub wrong_password : LockPolicy → ℕ → String → User → Tables → Tables × Answer
unfolding increment_failed_login
wrong_password policy now username u s =
    let (u', locks) = increment_failed_login policy now u in
    let s' = refuse username invalid_password (record s { users = Dict.put username u' s.users }) in
    if locks
    then (
      record s' { events = s'.events ++ locked_event username policy.lock_duration_minutes ∷ [] },
      now_locked policy.lock_duration_minutes,
    )
    else (s', tries_left (policy.max_login_attempts - u'.failed_login_attempts))

-- The branch of the right password.
unfoldable pub accept : ℕ → String → User → Tables → Tables × Answer
accept now username u s =
    let u' = update_last_login now u in
    (
      record {
        users = Dict.put username u' s.users;
        attempts = s.attempts ++ (username, none) ∷ [];
        events = s.events ++ login_success username ∷ [];
      },
      authenticated u',
    )

unfoldable pub authenticate_user :
    (String → String → Bool) → LockPolicy → ℕ → String → String → Tables → Tables × Answer
authenticate_user verify policy now username password s = elim (Dict.get username s.users) [
  | none ↦ (refuse username user_not_found s, bad_credentials)
  | some u ↦
      if not u.is_active
      then (refuse username account_disabled s, disabled)
      else if is_locked now u
      then (refuse username account_locked s, locked)
      else if not (verify password u.password_hash)
      then wrong_password policy now username u s
      else accept now username u s
]
