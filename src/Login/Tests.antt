-- ===== src/Login/Tests.antt =====
-- Logins on concrete input.
use xzcccc_smart_media.Base.{◌≡◌, refl, String, [], ◌∷◌, Bool, true, none, some, str_eq, All, arith}
use xzcccc_smart_media.Dict
use xzcccc_smart_media.Dict.{Dict}
use xzcccc_smart_media.Login.Account.{User, Tables, locked, LockPolicy, authenticate_user}
use xzcccc_smart_media.Login.Lockout.{is_authenticated, run, guessing_is_shut_out}
use xzcccc_smart_media.Login.Register.{new_user, create, create_user, authenticated-create_user}
use xzcccc_smart_media.Base.{eq_iff, any}

-- A check for which a password is its own hash.
abbrev verify : String → String → Bool
verify password hash = str_eq password hash

abbrev policy : LockPolicy
policy = record { max_login_attempts = 3; lock_duration_minutes = 15 }

abbrev ann : User
ann = record {
  password_hash = "secret";
  email = none;
  role = "user";
  is_active = true;
  last_login = none;
  failed_login_attempts = 1;
  locked_until = none;
}

abbrev shut_ann : User
shut_ann = record ann { failed_login_attempts = 3; locked_until = some 900000000 }

abbrev tables : User → Tables
tables u = record { users = ("ann", u) ∷ []; attempts = []; events = [] }

-- Two wrong passwords on top of an earlier one: then the right one does not help for 15 minutes.
guessing_is_shut_out_example :
    All
      (λ a. a ≡ locked)
      (run verify policy "ann"
        ((899000000, "secret") ∷ [])
        (run verify policy "ann" ((1000000, "guess") ∷ (2000000, "other") ∷ []) (tables ann)).0).1
guessing_is_shut_out_example =
    guessing_is_shut_out verify policy "ann" (1000000, "guess") ((2000000, "other") ∷ [])
      ((899000000, "secret") ∷ []) (tables ann) ann (unfold Dict.get in refl) refl refl
      (refl, (refl, tt)) refl (omega arith, tt)

-- A digest that is the password itself, as `verify` above expects.
abbrev plain : String → String
plain password = password

plain-accepts : (p : String) → verify p (plain p) ≡ true
plain-accepts p = (eq_iff p p).1 refl

abbrev bob : User
bob = new_user "new" none "user"

abbrev with_bob : Tables
with_bob = record (tables ann) { users = ("ann", ann) ∷ ("bob", bob) ∷ [] }

authenticated-create_user_example :
    is_authenticated (authenticate_user verify policy 9 "bob" "new" with_bob).1 ≡ true
unfolding create_user create any Dict.get Dict.put
authenticated-create_user_example =
    authenticated-create_user verify plain policy 9 "bob" "new" none "user" (tables ann) with_bob
      bob plain-accepts refl

abbrev administrator : User
administrator = new_user "root" none "admin"

abbrev with_admin : Tables
with_admin = record (tables ann) { users = ("ann", ann) ∷ ("admin", administrator) ∷ [] }
