-- ===== src/PathSecurity/Inside.antt =====
-- The test whether a path lies in a directory, on the texts and on the parts of the paths.
use Prim.Native.String.{String, ◌∷◌ as ◌▸◌, ◌++◌ as ◌⧺◌}
use text.Mathlib.Text.{starts_with}
use text.Mathlib.TextEquality.{starts_with_iff}
use text.Mathlib.TextLemmas.{append_assoc as text_assoc, nil-append, cons-append}
use xzcccc_smart_media.Base.{
  ◌≡◌, refl, sym, ap, ◌∙◌, List, [], ◌∷◌, ◌++◌, Bool, true, false, ◌||◌, if◌then◌else◌, str_eq,
  eq_iff, arith, Bool-cases, inl, inr, ◌↔◌,
}
use mathlib.Core.List.{append-nil}
use xzcccc_smart_media.Text.Split.{
  split, join_with, split-append, join_with-split, join_with-append, split-nonempty,
}
use xzcccc_smart_media.Text.Strip.{ends_with, rstrip, rstrip-cases, rstrip-append}
use xzcccc_smart_media.PathSecurity.Posix.{slash}

-- `abs_allowed` with a separator at its end
abbrev pub with_slash : String → String
with_slash dir = if ends_with slash dir then dir else dir ⧺ "/"

-- `real_path.startswith(abs_allowed) or real_path == abs_allowed.rstrip(os.sep)`
unfoldable pub is_inside : String → String → Bool
is_inside dir path =
    starts_with path (with_slash dir) || str_eq path (rstrip slash (with_slash dir))

-- The parts of the path are those of the directory, and more.
abbrev pub IsBelow : String → String → Type 0
IsBelow dir path = (rest : List String) × (split slash path ≡ split slash dir ++ rest)

IsBelow-prefix : (dir path t : String) → dir ⧺ (slash ▸ t) ≡ path → IsBelow dir path
IsBelow-prefix dir path t e = (split slash t, ap (split slash) (sym e) ∙ split-append slash dir t)

IsBelow-same : (dir path : String) → path ≡ dir → IsBelow dir path
IsBelow-same dir path e = ([], ap (split slash) e ∙ sym (append-nil (split slash dir)))

slash_then : (dir t : String) → (dir ⧺ "/") ⧺ t ≡ dir ⧺ (slash ▸ t)
slash_then dir t =
    text_assoc dir "/" t ∙ ap (dir ⧺◌) (cons-append slash "" t ∙ ap (slash ▸◌) (nil-append t))

-- What the test admits lies below the directory: no other directory whose name begins in the same
-- way is taken for it.
pub is_inside-IsBelow :
    (dir path : String) → is_inside dir path ≡ true → IsBelow (rstrip slash dir) path
unfolding is_inside
is_inside-IsBelow dir path h = elim (Bool-cases (starts_with path (with_slash dir))) [
  | inl under ↦
      let (t, e) = (starts_with_iff path (with_slash dir)).0 under in
      elim (rstrip-cases slash dir) [
        | inl (ends, same) ↦
            let e' : (dir ⧺ "/") ⧺ t ≡ path = rw ends at e in
            rw same (IsBelow-prefix dir path t (sym (slash_then dir t) ∙ e'))
        | inr (u, ends, same) ↦
            let e' : dir ⧺ t ≡ path = rw ends at e in
            IsBelow-prefix (rstrip slash dir) path (u ⧺ t) (
              ap (rstrip slash dir ⧺◌) (sym (cons-append slash u t))
              ∙ sym (text_assoc (rstrip slash dir) (slash ▸ u) t)
              ∙ ap (λ d. d ⧺ t) (sym same)
              ∙ e')
      ]
  | inr other ↦
      let equal : path ≡ rstrip slash (with_slash dir) = (eq_iff _ _).0 (rw other at h) in
      elim (Bool-cases (ends_with slash dir)) [
        | inl ends ↦ IsBelow-same (rstrip slash dir) path (rw ends at equal)
        | inr ends ↦
            let e' : path ≡ rstrip slash (dir ⧺ "/") = rw ends at equal in
            IsBelow-same (rstrip slash dir) path (e' ∙ rstrip-append slash dir)
      ]
]

rstrip-open : (dir : String) → ends_with slash dir ≡ false → rstrip slash dir ≡ dir
rstrip-open dir ends = elim (rstrip-cases slash dir) [
  | inl (e, same) ↦ same
  | inr (u, e, same) ↦ absurd (ground arith)
]

or_true : (b : Bool) → (b || true) ≡ true
or_true true = refl
or_true false = refl

-- And for a directory that does not end in a separator it admits all that lies below.
pub IsBelow-is_inside :
    (dir path : String) → ends_with slash dir ≡ false → IsBelow dir path → is_inside dir path ≡ true
unfolding is_inside
IsBelow-is_inside dir path ends ([], e) =
    let whole : path ≡ dir =
      sym (join_with-split slash path)
      ∙ ap (join_with slash) (e ∙ append-nil (split slash dir))
      ∙ join_with-split slash dir in
    let stripped : path ≡ rstrip slash (dir ⧺ "/") =
      whole ∙ sym (rstrip-open dir ends) ∙ sym (rstrip-append slash dir) in
    rw (ends, (eq_iff _ _).1 stripped) (or_true (starts_with path (dir ⧺ "/")))
IsBelow-is_inside dir path ends (y ∷ ys, e) =
    let (x, xs, parts) = split-nonempty slash dir in
    let whole : path ≡ dir ⧺ (slash ▸ join_with slash (y ∷ ys)) =
      sym (join_with-split slash path)
      ∙ ap (join_with slash) (e ∙ ap (λ l. l ++ y ∷ ys) parts)
      ∙ join_with-append slash x y xs ys
      ∙ ap (λ d. d ⧺ (slash ▸ join_with slash (y ∷ ys)))
          (ap (join_with slash) (sym parts) ∙ join_with-split slash dir) in
    let under : starts_with path (dir ⧺ "/") ≡ true =
      (starts_with_iff path (dir ⧺ "/")).1
        (join_with slash (y ∷ ys), slash_then dir (join_with slash (y ∷ ys)) ∙ sym whole) in
    rw (ends, under) refl

-- For a directory that does not end in a separator, the test admits exactly the paths whose parts are
-- those of the directory, and possibly more: the directory itself, and all that lies below it.
pub is_inside-exactly :
    (dir path : String)
    → ends_with slash dir ≡ false
    → (is_inside dir path ≡ true) ↔ IsBelow dir path
is_inside-exactly dir path ends = (
  (λ h. rw (sym (rstrip-open dir ends)) (is_inside-IsBelow dir path h)),
  IsBelow-is_inside dir path ends,
)
