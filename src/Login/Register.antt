-- ===== src/Login/Register.antt =====
-- How accounts and passwords come about: `create_user`, `change_password` and `init_default_admin` of
-- app/services/auth_service.py. `hash` is the digest that `hash_password` makes of a password in
-- these calls, and `verify` is `verify_password`: both call bcrypt.
use xzcccc_smart_media.Base.{
  ℕ, ◌≡◌, String, Bool, true, false, not, ◌&&◌, ◌||◌, Option, none, some, if◌then◌else◌, str_eq,
  eq_iff, any, arith, Bool-cases, inl, inr,
}
use xzcccc_smart_media.Dict
use xzcccc_smart_media.Dict.{Dict, get-put}
use xzcccc_smart_media.Login.Account.{User, Tables, LockPolicy, is_locked, authenticate_user}
use xzcccc_smart_media.Login.Lockout.{is_authenticated, authenticated_iff}

-- The outcome of a call that makes a user: the tables with the user in them, or what is raised; or
-- None, for `init_default_admin` where the user is there.
pub data Creation : Type 0 where
  created : Tables → User → Creation
  already_there : Creation
  value_error : Creation
  integrity_error : Creation

abbrev pub has_email : Option String → User → Bool
has_email none u = false
has_email (some e) u = elim u.email [ none ↦ false | some e' ↦ str_eq e e' ]

abbrev pub new_user : String → Option String → String → User
new_user password_hash email role = record {
  password_hash = password_hash;
  email = email;
  role = role;
  is_active = true;
  last_login = none;
  failed_login_attempts = 0;
  locked_until = none;
}

-- `User.create`: the columns `username` and `email` are unique, and a NULL equals nothing.
unfoldable pub create : String → String → Option String → String → Tables → Creation
create username password_hash email role s =
    if Dict.contains username s.users || any (λ item. has_email email item.1) s.users
    then integrity_error
    else created
        (record s { users = Dict.put username (new_user password_hash email role) s.users })
        (new_user password_hash email role)

unfoldable pub create_user :
    (String → String) → String → String → Option String → String → Tables → Creation
create_user hash username password email role s =
    if Dict.contains username s.users
    then value_error
    else create username (hash password) email role s

-- The user object that the call is given is the row of `username`.
unfoldable pub change_password :
    (String → String → Bool)
    → (String → String)
    → String
    → User
    → String
    → String
    → Tables
    → Tables × Bool
change_password verify hash username u old_password new_password s =
    if not (verify old_password u.password_hash) then (s, false) else (
      record s {
        users = Dict.put username (record u { password_hash = hash new_password }) s.users;
      },
      true,
    )

-- The two arguments after `hash` are the settings ADMIN_USERNAME and ADMIN_PASSWORD, the latter empty
-- where it is not set.
unfoldable pub init_default_admin : (String → String) → String → String → Tables → Creation
init_default_admin hash admin_username admin_password s =
    if str_eq admin_password ""
    then value_error
    else if Dict.contains admin_username s.users
    then already_there
    else create_user hash admin_username admin_password none "admin" s

create_created :
    (username h : String) (email : Option String) (role : String) (s s' : Tables) (u : User)
    → create username h email role s ≡ created s' u
    → (u ≡ new_user h email role) × (Dict.get username s'.users ≡ some u)
unfolding create
create_created username h email role s s' u e =
    elim (Bool-cases
      (Dict.contains username s.users || any (λ item. has_email email item.1) s.users)) [
        | inl taken ↦ absurd (ground arith)
        | inr free ↦
            let made : u ≡ new_user h email role = ground arith in
            let after : s'
                ≡ record s { users = Dict.put username (new_user h email role) s.users } =
              ground arith in
            (
              made,
              ground (
                arith,
                get-put username username (new_user h email role) s.users,
                eq_iff username username,
              ),
            )
      ]

create_user_created :
    (hash : String → String) (username password : String) (email : Option String) (role : String)
    (s s' : Tables) (u : User)
    → create_user hash username password email role s ≡ created s' u
    → (u ≡ new_user (hash password) email role) × (Dict.get username s'.users ≡ some u)
unfolding create_user
create_user_created hash username password email role s s' u e =
    elim (Bool-cases (Dict.contains username s.users)) [
      | inl taken ↦ absurd (ground arith)
      | inr free ↦ create_created username (hash password) email role s s' u (ground arith)
    ]

module _ (verify : String → String → Bool) (hash : String → String) where
  -- If the check accepts a password for its own digest, whoever has just been created gets in with
  -- the password of the creation, at any time.
  pub authenticated-create_user :
      (policy : LockPolicy) (now : ℕ) (username password : String) (email : Option String)
      (role : String) (s s' : Tables) (u : User)
      → ((p : String) → verify p (hash p) ≡ true)
      → create_user hash username password email role s ≡ created s' u
      → is_authenticated (authenticate_user verify policy now username password s').1 ≡ true
  authenticated-create_user policy now username password email role s s' u accepts e =
      let (made, found) = create_user_created hash username password email role s s' u e in
      let unlocked : is_locked now u ≡ false = unfold is_locked in ground arith in
      ground
        (arith, authenticated_iff verify policy username now password s' u found, accepts password)

  -- After a change of the password of a known user, a password lets this user in exactly if it
  -- passes for the digest of the new one, the account is active, and it is not locked: the change
  -- neither opens a lock nor closes one.
  pub authenticated-change_password :
      (policy : LockPolicy) (now : ℕ) (username old_password new_password password : String)
      (s s' : Tables) (u : User)
      → Dict.get username s.users ≡ some u
      → change_password verify hash username u old_password new_password s ≡ (s', true)
      → is_authenticated (authenticate_user verify policy now username password s').1
        ≡ (u.is_active && not (is_locked now u) && verify password (hash new_password))
  unfolding change_password
  authenticated-change_password policy now username old_password new_password password s s' u found
        e =
      let u' : User = record u { password_hash = hash new_password } in
      elim (Bool-cases (verify old_password u.password_hash)) [
        | inr wrong ↦ absurd (ground arith)
        | inl right ↦
            let after : s' ≡ record s { users = Dict.put username u' s.users } = ground arith in
            let stored : Dict.get username s'.users ≡ some u' =
              ground (arith, get-put username username u' s.users, eq_iff username username) in
            unfold is_locked in authenticated_iff verify policy username now password s' u' stored
      ]

-- The default administrator is made once: after a call that made one, a second call, with any
-- password that is set, finds it and makes none.
pub init_default_admin_twice :
    (hash : String → String) (username password later : String) (s s' : Tables) (u : User)
    → init_default_admin hash username password s ≡ created s' u
    → str_eq later "" ≡ false
    → init_default_admin hash username later s' ≡ already_there
unfolding init_default_admin
init_default_admin_twice hash username password later s s' u e later_set =
    let made : create_user hash username password none "admin" s ≡ created s' u =
      elim (Bool-cases (str_eq password "")) [
        | inl unset ↦ absurd (ground arith)
        | inr given ↦ elim (Bool-cases (Dict.contains username s.users)) [
          | inl taken ↦ absurd (ground arith)
          | inr free ↦ ground arith
        ]
      ] in
    let found = (create_user_created hash username password none "admin" s s' u made).1 in
    ground arith
