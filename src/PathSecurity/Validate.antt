-- ===== src/PathSecurity/Validate.antt =====
-- `get_configured_local_directory`, `get_allowed_directories` and `validate_file_path` of
-- app/core/path_security.py. `Os` is what they ask the operating system for.
use xzcccc_smart_media.Base.{
  ◌≡◌, List, [], ◌∷◌, ◌++◌, Bool, true, false, not, ◌&&◌, ◌||◌, if◌then◌else◌, String, str_eq,
  Option, none, some, any, arith, Bool-cases, ◌⊎◌, inl, inr,
}
use xzcccc_smart_media.PathSecurity.Posix.{abspath, slash}
use xzcccc_smart_media.PathSecurity.Inside.{is_inside, IsBelow, is_inside-IsBelow}
use xzcccc_smart_media.Text.Strip.{rstrip}

-- The working directory and the questions about paths; `realpath` is none where the call raises.
pub record Os : Type 0 where
  pub cwd : String
  pub islink : String → Bool
  pub realpath : String → Option String
  pub exists : String → Bool
  pub isdir : String → Bool

-- The messages of `PathSecurityError`.
pub data PathError : Type 0 where
  empty_path : PathError
  no_directories : PathError
  symbolic_link : PathError
  unresolved : PathError
  outside : PathError
  missing : PathError

pub data Checked : Type 0 where
  accepted : String → Checked
  refused : PathError → Checked

-- An endpoint of the configuration: the `local_directory` of each of its `dirs`.
abbrev pub Endpoint : Type 0
Endpoint = List (Option String)

unfoldable pub get_configured_local_directory : List Endpoint → Option String
get_configured_local_directory [] = none
get_configured_local_directory ([] ∷ rest) = none
get_configured_local_directory ((first_dir ∷ dirs) ∷ rest) = first_dir

unfoldable pub default_dirs : String → List String
default_dirs cwd =
    abspath cwd "./strm" ∷ abspath cwd "./output" ∷ abspath cwd "./tmp" ∷ abspath cwd "./data" ∷ []

-- A configured directory behind the default ones, unless it is empty or one of them.
unfoldable pub with_local : String → Option String → List String → List String
with_local cwd none dirs = dirs
with_local cwd (some local_dir) dirs =
    let abs_dir = abspath cwd local_dir in
    if str_eq local_dir "" || any (str_eq abs_dir) dirs then dirs else dirs ++ abs_dir ∷ []

-- The endpoints are none where the configuration cannot be read.
unfoldable pub get_allowed_directories : String → Option (List Endpoint) → List String
get_allowed_directories cwd none = default_dirs cwd
get_allowed_directories cwd (some endpoints) =
    with_local cwd (get_configured_local_directory endpoints) (default_dirs cwd)

unfoldable pub in_allowed : Os → List String → String → Bool
in_allowed os dirs real_path = any (λ dir. is_inside (abspath os.cwd dir) real_path) dirs

-- The tests after the path is resolved.
unfoldable pub check_real : Os → List String → Bool → Option String → Checked
check_real os dirs check_exists none = refused unresolved
check_real os dirs check_exists (some real_path) =
    if not (in_allowed os dirs real_path)
    then refused outside
    else if check_exists && not (os.exists real_path)
    then refused missing
    else accepted real_path

unfoldable pub check_in : Os → String → List String → Bool → Bool → Checked
check_in os file_path [] check_exists allow_symlinks = refused no_directories
check_in os file_path (dir ∷ dirs) check_exists allow_symlinks =
    let abs_path = abspath os.cwd file_path in
    if not allow_symlinks && os.islink file_path
    then refused symbolic_link
    else check_real os (dir ∷ dirs) check_exists (os.realpath abs_path)

-- `allowed_dirs`, or the configured ones for None
abbrev pub directories : Os → Option (List Endpoint) → Option (List String) → List String
directories os config none = get_allowed_directories os.cwd config
directories os config (some dirs) = dirs

unfoldable pub validate_file_path :
    Os → Option (List Endpoint) → String → Option (List String) → Bool → Bool → Checked
validate_file_path os config file_path allowed_dirs check_exists allow_symlinks =
    if str_eq file_path ""
    then refused empty_path
    else check_in os file_path (directories os config allowed_dirs) check_exists allow_symlinks

-- A predicate that holds at one element at least.
abbrev pub Any : (String → Type 0) → List String → Type 0
Any P [] = ⊥
Any P (x ∷ xs) = P x ⊎ Any P xs

-- The path lies below one of the directories, part by part.
abbrev pub IsConfined : String → List String → String → Type 0
IsConfined cwd dirs path = Any (λ dir. IsBelow (rstrip slash (abspath cwd dir)) path) dirs

in_allowed-IsConfined :
    (os : Os) (dirs : List String) (path : String)
    → in_allowed os dirs path ≡ true
    → IsConfined os.cwd dirs path
unfolding in_allowed any
in_allowed-IsConfined os [] path h = ground arith
in_allowed-IsConfined os (dir ∷ dirs) path h =
    elim (Bool-cases (is_inside (abspath os.cwd dir) path)) [
      | inl inside ↦ inl (is_inside-IsBelow (abspath os.cwd dir) path inside)
      | inr other ↦ inr (in_allowed-IsConfined os dirs path (rw other at h))
    ]

check_real-accepted :
    (os : Os) (dirs : List String) (check_exists : Bool) (found : Option String) (real : String)
    → check_real os dirs check_exists found ≡ accepted real
    → (found ≡ some real)
      × (in_allowed os dirs real ≡ true)
      × ((check_exists ≡ false) ⊎ (os.exists real ≡ true))
unfolding check_real
check_real-accepted os dirs check_exists none real h = ground arith
check_real-accepted os dirs check_exists (some path) real h = ground arith

-- What an accepted path satisfies: it is the resolved path of the argument, it lies below an allowed
-- directory, it exists if that was asked for, and the argument was no link unless links are allowed.
abbrev pub IsAdmitted : Os → List String → Bool → Bool → String → String → Type 0
IsAdmitted os dirs check_exists allow_symlinks file_path real =
    (os.realpath (abspath os.cwd file_path) ≡ some real)
    × IsConfined os.cwd dirs real
    × ((check_exists ≡ false) ⊎ (os.exists real ≡ true))
    × ((allow_symlinks ≡ true) ⊎ (os.islink file_path ≡ false))

check_in-accepted :
    (os : Os) (file_path : String) (dirs : List String) (check_exists allow_symlinks : Bool)
    (real : String)
    → check_in os file_path dirs check_exists allow_symlinks ≡ accepted real
    → IsAdmitted os dirs check_exists allow_symlinks file_path real
unfolding check_in
check_in-accepted os file_path [] check_exists allow_symlinks real h = ground arith
check_in-accepted os file_path (dir ∷ dirs) check_exists allow_symlinks real h =
    let rest : (check_real os (dir ∷ dirs) check_exists (os.realpath (abspath os.cwd file_path))
          ≡ accepted real)
        × ((allow_symlinks ≡ true) ⊎ (os.islink file_path ≡ false)) =
      ground arith in
    let (e, inside, there) = check_real-accepted os (dir ∷ dirs) check_exists _ real rest.0 in
    (e, in_allowed-IsConfined os (dir ∷ dirs) real inside, there, rest.1)

-- A path that the validation accepts is the resolved path of the argument, and it lies, part by part,
-- below one of the directories that are allowed (those of the caller, or the configured ones); it
-- exists where that was asked for; and the argument was not a link, unless links are allowed.
pub validate_file_path-IsAdmitted :
    (os : Os) (config : Option (List Endpoint)) (file_path : String)
    (allowed_dirs : Option (List String)) (check_exists allow_symlinks : Bool) (real : String)
    → validate_file_path os config file_path allowed_dirs check_exists allow_symlinks
      ≡ accepted real
    → IsAdmitted os (directories os config allowed_dirs) check_exists allow_symlinks file_path real
unfolding validate_file_path
validate_file_path-IsAdmitted os config file_path allowed_dirs check_exists allow_symlinks real h =
    elim (Bool-cases (str_eq file_path "")) [
      | inl blank ↦ ground arith
      | inr named ↦
          check_in-accepted os file_path (directories os config allowed_dirs) check_exists
            allow_symlinks real (rw named at h)
    ]
