-- ===== src/PathSecurity/Actions.antt =====
-- The file operations of app/core/path_security.py that validate their paths: each gives the effects
-- on the file system in their order, or the error of the validation.
use Prim.Native.Char.{Char, code}
use Prim.Native.String.{[] as nil, ◌∷◌ as ◌▸◌}
use xzcccc_smart_media.Base.{
  ◌≡◌, refl, List, [], ◌∷◌, ◌++◌, Bool, true, false, not, ◌&&◌, ◌||◌, ◌==◌, if◌then◌else◌, String,
  str_eq, Option, some, All, All-append, Bool-cases, ◌⊎◌, inl, inr,
}
use xzcccc_smart_media.PathSecurity.Posix.{abspath, dirname}
use xzcccc_smart_media.PathSecurity.Validate.{
  Os, PathError, Checked, accepted, refused, Endpoint, validate_file_path, directories, IsConfined,
  validate_file_path-IsAdmitted,
}

pub data Effect : Type 0 where
  make_dirs : String → Effect
  open_file : String → String → Effect
  rename : String → String → Effect
  make_symlink : String → String → Effect
  make_link : String → String → Effect
  copy : String → String → Effect

pub data FileOutcome : Type 0 where
  denied : PathError → FileOutcome
  performed : List Effect → FileOutcome

-- What `os.link` comes to: done, refused with EXDEV, or refused otherwise (then the call raises).
pub data Linked : Type 0 where
  linked : Linked
  cross_device : Linked
  not_linked : Linked

-- `c in s`
unfoldable pub has_char : Char → String → Bool
has_char c nil = false
has_char c (d ▸ s) = code d == code c || has_char c s

-- The directory of a validated path, made if it is missing.
unfoldable pub ensure_parent : Os → String → List Effect
ensure_parent os validated =
    let dir_path = dirname validated in
    if not (str_eq dir_path "") && not (os.exists dir_path) then make_dirs dir_path ∷ [] else []

unfoldable pub open_checked : Os → String → Checked → FileOutcome
open_checked os mode (refused e) = denied e
open_checked os mode (accepted validated) =
    let parents =
      if has_char "w" mode || has_char "a" mode then ensure_parent os validated else [] in
    performed (parents ++ open_file validated mode ∷ [])

unfoldable pub makedirs_checked : List Effect → Checked → FileOutcome
makedirs_checked effects (refused e) = denied e
makedirs_checked effects (accepted validated) = performed effects

-- Two validated paths, and what is done with them once the directory of the second is there.
unfoldable pub both_checked : Os → (String → String → List Effect) → Checked → Checked → FileOutcome
both_checked os act (refused e) dst = denied e
both_checked os act (accepted src) (refused e) = denied e
both_checked os act (accepted src) (accepted dst) = performed (ensure_parent os dst ++ act src dst)

unfoldable pub link_or_copy : (String → String → Linked) → String → String → List Effect
link_or_copy link src dst = elim (link src dst) [
  | linked ↦ make_link src dst ∷ []
  | cross_device ↦ copy src dst ∷ []
  | not_linked ↦ []
]

-- `os.path.dirname(abs_path) or abs_path`
abbrev pub parent_of : String → String
parent_of abs_path =
    let parent_dir = dirname abs_path in if str_eq parent_dir "" then abs_path else parent_dir

module _ (os : Os) (config : Option (List Endpoint)) (allowed_dirs : Option (List String)) where
  unfoldable pub safe_open : String → String → FileOutcome
  safe_open file_path mode =
      open_checked os mode (validate_file_path os config file_path allowed_dirs false false)

  unfoldable pub safe_makedirs : String → FileOutcome
  safe_makedirs path =
      let abs_path = abspath os.cwd path in
      if os.exists abs_path && os.isdir abs_path
      then makedirs_checked [] (validate_file_path os config abs_path allowed_dirs false false)
      else makedirs_checked (make_dirs abs_path ∷ [])
          (validate_file_path os config (parent_of abs_path) allowed_dirs false false)

  unfoldable pub safe_rename : String → String → FileOutcome
  safe_rename src dst =
      both_checked os (λ a b. rename a b ∷ [])
        (validate_file_path os config src allowed_dirs true false)
        (validate_file_path os config dst allowed_dirs false false)

  unfoldable pub safe_symlink : String → String → FileOutcome
  safe_symlink src dst =
      both_checked os (λ a b. make_symlink a b ∷ [])
        (validate_file_path os config src allowed_dirs true true)
        (validate_file_path os config dst allowed_dirs false false)

  unfoldable pub safe_hardlink : (String → String → Linked) → String → String → FileOutcome
  safe_hardlink link src dst =
      both_checked os (link_or_copy link) (validate_file_path os config src allowed_dirs true false)
        (validate_file_path os config dst allowed_dirs false false)

-- What an effect may touch: files that lie below an allowed directory. A directory that is made is
-- the parent of such a file, or stands in a directory that resolves to such a place.
abbrev pub IsSafe : Os → List String → Effect → Type 0
IsSafe os dirs (make_dirs p) =
    (q : String) × IsConfined os.cwd dirs q
    × ((p ≡ dirname q) ⊎ (os.realpath (abspath os.cwd (parent_of p)) ≡ some q))
IsSafe os dirs (open_file p mode) = IsConfined os.cwd dirs p
IsSafe os dirs (rename a b) = IsConfined os.cwd dirs a × IsConfined os.cwd dirs b
IsSafe os dirs (make_symlink a b) = IsConfined os.cwd dirs a × IsConfined os.cwd dirs b
IsSafe os dirs (make_link a b) = IsConfined os.cwd dirs a × IsConfined os.cwd dirs b
IsSafe os dirs (copy a b) = IsConfined os.cwd dirs a × IsConfined os.cwd dirs b

abbrev pub Performs : (Effect → Type 0) → FileOutcome → Type 0
Performs P (denied e) = Unit {0}
Performs P (performed effects) = All P effects

-- An accepted path is confined.
abbrev Confines : Os → List String → Checked → Type 0
Confines os dirs (refused e) = Unit {0}
Confines os dirs (accepted p) = IsConfined os.cwd dirs p

module _ (os : Os) (dirs : List String) where
  ensure_parent-IsSafe :
      (p : String) → IsConfined os.cwd dirs p → All (IsSafe os dirs) (ensure_parent os p)
  unfolding ensure_parent
  ensure_parent-IsSafe p h =
      elim (Bool-cases (not (str_eq (dirname p) "") && not (os.exists (dirname p)))) [
        | inl make ↦ rw make ((p, h, inl refl), tt)
        | inr there ↦ rw there tt
      ]

  open_checked-IsSafe :
      (mode : String) (c : Checked)
      → Confines os dirs c
      → Performs (IsSafe os dirs) (open_checked os mode c)
  unfolding open_checked
  open_checked-IsSafe mode (refused e) h = tt
  open_checked-IsSafe mode (accepted p) h =
      elim (Bool-cases (has_char "w" mode || has_char "a" mode)) [
        | inl writes ↦ rw writes (
            All-append (IsSafe os dirs) (ensure_parent os p) (open_file p mode ∷ [])
              (ensure_parent-IsSafe p h) (h, tt))
        | inr reads ↦ rw reads (h, tt)
      ]

  both_checked-IsSafe :
      (act : String → String → List Effect)
      → ((a b : String)
          → IsConfined os.cwd dirs a
          → IsConfined os.cwd dirs b
          → All (IsSafe os dirs) (act a b))
      → (src dst : Checked) → Confines os dirs src
      → Confines os dirs dst
      → Performs (IsSafe os dirs) (both_checked os act src dst)
  unfolding both_checked
  both_checked-IsSafe act safe (refused e) dst hs hd = tt
  both_checked-IsSafe act safe (accepted src) (refused e) hs hd = tt
  both_checked-IsSafe act safe (accepted src) (accepted dst) hs hd =
      All-append (IsSafe os dirs) (ensure_parent os dst) (act src dst) (ensure_parent-IsSafe dst hd)
        (safe src dst hs hd)

  link_or_copy-IsSafe :
      (link : String → String → Linked) (a b : String)
      → IsConfined os.cwd dirs a
      → IsConfined os.cwd dirs b
      → All (IsSafe os dirs) (link_or_copy link a b)
  unfolding link_or_copy
  link_or_copy-IsSafe link a b ha hb =
      elim (link a b)
        as (λ r. All (IsSafe os dirs) (elim r [
          | linked ↦ make_link a b ∷ []
          | cross_device ↦ copy a b ∷ []
          | not_linked ↦ []
        ])) [ linked ↦ ((ha, hb), tt) | cross_device ↦ ((ha, hb), tt) | not_linked ↦ tt ]

  made-IsSafe :
      (p : String) (c : Checked)
      → ((real : String)
          → c ≡ accepted real
          → (os.realpath (abspath os.cwd (parent_of p)) ≡ some real) × IsConfined os.cwd dirs real)
      → Performs (IsSafe os dirs) (makedirs_checked (make_dirs p ∷ []) c)
  unfolding makedirs_checked
  made-IsSafe p (refused e) h = tt
  made-IsSafe p (accepted real) h = let (e, inside) = h real refl in ((real, inside, inr e), tt)

  kept-IsSafe : (c : Checked) → Performs (IsSafe os dirs) (makedirs_checked [] c)
  unfolding makedirs_checked
  kept-IsSafe (refused e) = tt
  kept-IsSafe (accepted real) = tt

Confines-cases :
    (os : Os) (dirs : List String) (c : Checked)
    → ((real : String) → c ≡ accepted real → IsConfined os.cwd dirs real)
    → Confines os dirs c
Confines-cases os dirs (refused e) h = tt
Confines-cases os dirs (accepted p) h = h p refl

module _ (os : Os) (config : Option (List Endpoint)) (allowed_dirs : Option (List String)) where
  abbrev allowed : List String
  allowed = directories os config allowed_dirs

  Confines-validated :
      (path : String) (check_exists allow_symlinks : Bool)
      → Confines os allowed
          (validate_file_path os config path allowed_dirs check_exists allow_symlinks)
  Confines-validated path check_exists allow_symlinks = Confines-cases os allowed _ (λ real e.
      (validate_file_path-IsAdmitted os config path allowed_dirs check_exists allow_symlinks real
        e).1)

  made_safely :
      (path : String) → Performs (IsSafe os allowed) (safe_makedirs os config allowed_dirs path)
  unfolding safe_makedirs
  made_safely path =
      elim (Bool-cases (os.exists (abspath os.cwd path) && os.isdir (abspath os.cwd path))) [
        | inl there ↦ rw there (kept-IsSafe os allowed _)
        | inr new ↦ rw new (
            made-IsSafe os allowed _ _ (λ real e.
              let q = validate_file_path-IsAdmitted os config _ allowed_dirs false false real e in
              (q.0, q.1)))
      ]

  -- Whatever the system holds and whatever paths a caller gives, each file operation touches only
  -- paths that lie, part by part, below an allowed directory: the files it opens, renames, links and
  -- copies, on both sides. A directory it makes is the parent of such a path, or is made inside a
  -- directory that resolves to such a path.
  pub actions_confined :
      (a b mode : String) (link : String → String → Linked)
      → Performs (IsSafe os allowed) (safe_open os config allowed_dirs a mode)
        × Performs (IsSafe os allowed) (safe_makedirs os config allowed_dirs a)
        × Performs (IsSafe os allowed) (safe_rename os config allowed_dirs a b)
        × Performs (IsSafe os allowed) (safe_symlink os config allowed_dirs a b)
        × Performs (IsSafe os allowed) (safe_hardlink os config allowed_dirs link a b)
  unfolding safe_open safe_rename safe_symlink safe_hardlink
  actions_confined a b mode link =
      let dst = Confines-validated b false false in
      (
        open_checked-IsSafe os allowed mode _ (Confines-validated a false false),
        made_safely a,
        both_checked-IsSafe os allowed _ (λ x y hx hy. ((hx, hy), tt)) _ _
            (Confines-validated a true false) dst,
        both_checked-IsSafe os allowed _ (λ x y hx hy. ((hx, hy), tt)) _ _
            (Confines-validated a true true) dst,
        both_checked-IsSafe os allowed _ (link_or_copy-IsSafe os allowed link) _ _
            (Confines-validated a true false) dst,
      )
