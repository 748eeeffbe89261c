-- ===== src/PathSecurity/Posix.antt =====
-- `os.path.abspath` and `os.path.dirname` of Python on POSIX, which app/core/path_security.py calls.
use Prim.Native.Char.{Char}
use Prim.Native.String.{String, ◌++◌ as ◌⧺◌}
use text.Mathlib.Text.{starts_with}
use mathlib.Core.List.{reverse}
use xzcccc_smart_media.Base.{
  ◌≡◌, List, [], ◌∷◌, ◌++◌, Bool, true, not, ◌&&◌, ◌||◌, if◌then◌else◌, str_eq, All, arith,
  Bool-cases, inl, inr,
}
use xzcccc_smart_media.Text.Split.{split, join_with}
use xzcccc_smart_media.Text.Strip.{ends_with, rstrip}

abbrev pub slash : Char
slash = "/"

-- `os.path.join(cwd, path)`
unfoldable pub path_join : String → String → String
path_join cwd path =
    if starts_with path "/"
    then path
    else if str_eq cwd "" || ends_with slash cwd
    then cwd ⧺ path
    else cwd ⧺ "/" ⧺ path

-- The directory above, whose parts stand here from the last to the first: the root is above itself.
abbrev pub up : List String → List String
up [] = []
up (last ∷ before) = before

-- The loop of `normpath` over the parts of an absolute path: the parts so far, the last one first.
unfoldable pub normal_parts : List String → List String → List String
normal_parts done [] = done
normal_parts done (part ∷ rest) =
    if str_eq part "" || str_eq part "."
    then normal_parts done rest
    else if not (str_eq part "..")
    then normal_parts (part ∷ done) rest
    else normal_parts (up done) rest

-- Two slashes at the front are kept, any other number is one.
abbrev pub initial_slashes : String → String
initial_slashes path = if starts_with path "//" && not (starts_with path "///") then "//" else "/"

-- `os.path.abspath(path)` where the process stands in the absolute directory `cwd`
unfoldable pub abspath : String → String → String
abspath cwd path =
    let full = path_join cwd path in
    initial_slashes full ⧺ join_with slash (reverse (normal_parts [] (split slash full)))

-- The parts but the last.
abbrev pub but_last : List String → List String
but_last [] = []
but_last (x ∷ []) = []
but_last (x ∷ y ∷ xs) = x ∷ but_last (y ∷ xs)

-- The path up to its last slash, with it.
abbrev pub head_of : List String → String
head_of [] = ""
head_of (x ∷ xs) = join_with slash ((x ∷ xs) ++ "" ∷ [])

unfoldable pub dirname : String → String
dirname path =
    let head = head_of (but_last (split slash path)) in
    let stripped = rstrip slash head in if str_eq stripped "" then head else stripped

-- A part that names a file below its directory.
abbrev pub is_proper : String → Bool
is_proper part = not (str_eq part "" || str_eq part "." || str_eq part "..")

up-proper :
    (done : List String)
    → All (λ p. is_proper p ≡ true) done
    → All (λ p. is_proper p ≡ true) (up done)
up-proper [] h = tt
up-proper (last ∷ before) h = h.1

-- A normal path has no part that stands for its own directory or the one above.
pub normal_parts-proper :
    (done parts : List String)
    → All (λ p. is_proper p ≡ true) done
    → All (λ p. is_proper p ≡ true) (normal_parts done parts)
unfolding normal_parts
normal_parts-proper done [] h = h
normal_parts-proper done (part ∷ rest) h = elim (Bool-cases (str_eq part "" || str_eq part ".")) [
  | inl skip ↦ rw skip (normal_parts-proper done rest h)
  | inr other ↦ elim (Bool-cases (str_eq part "..")) [
    | inr name ↦ rw (other, name) (normal_parts-proper (part ∷ done) rest (ground arith, h))
    | inl parent ↦ rw (other, parent) (normal_parts-proper (up done) rest (up-proper done h))
  ]
]
