-- ===== src/Text/Split.antt =====
-- `s.split(sep)` and `sep.join(parts)` for a separator of one character.
use Prim.Native.Char.{Char, code}
use Prim.Native.String.{String, [] as nil, ◌∷◌ as ◌▸◌, ◌++◌ as ◌⧺◌}
use text.Mathlib.TextLemmas.{append_assoc as text_assoc, nil-append, cons-append}
use text.Mathlib.TextEquality.{Char-path}
use xzcccc_smart_media.Base.{
  ◌≡◌, refl, sym, ap, ◌∙◌, List, [], ◌∷◌, ◌++◌, true, ◌==◌, if◌then◌else◌, arith, Bool-cases, inl,
  inr,
}

-- A character in front of the first part.
unfoldable pub onto_first : Char → List String → List String
onto_first c [] = (c ▸ "") ∷ []
onto_first c (s ∷ rest) = (c ▸ s) ∷ rest

unfoldable pub split : Char → String → List String
split sep nil = "" ∷ []
split sep (c ▸ s) =
    let rest = split sep s in if code c == code sep then "" ∷ rest else onto_first c rest

unfoldable pub join_with : Char → List String → String
join_with sep [] = ""
join_with sep (s ∷ []) = s
join_with sep (s ∷ t ∷ rest) = s ⧺ (sep ▸ join_with sep (t ∷ rest))

pub split-nonempty :
    (sep : Char) (s : String) → (x : String) × (xs : List String) × (split sep s ≡ x ∷ xs)
unfolding split onto_first
split-nonempty sep nil = ("", [], refl)
split-nonempty sep (c ▸ s) =
    let (x, xs, e) = split-nonempty sep s in
    elim (Bool-cases (code c == code sep)) [
      | inl same ↦ ("", split sep s, rw same refl)
      | inr other ↦ (c ▸ x, xs, rw (other, e) refl)
    ]

-- A separator between two texts is where their parts meet.
pub split-append :
    (sep : Char) (s t : String) → split sep (s ⧺ (sep ▸ t)) ≡ split sep s ++ split sep t
unfolding split onto_first
split-append sep nil t =
    let self : (code sep == code sep) ≡ true = ground arith in rw (nil-append (sep ▸ t), self) refl
split-append sep (c ▸ s) t =
    let (x, xs, e) = split-nonempty sep s in
    let rest = split-append sep s t in
    elim (Bool-cases (code c == code sep)) [
      | inl same ↦ rw (cons-append c s (sep ▸ t), same, rest) refl
      | inr other ↦ rw (cons-append c s (sep ▸ t), other, rest, e) refl
    ]

onto_first-join_with :
    (sep c : Char) (parts : List String)
    → join_with sep (onto_first c parts) ≡ c ▸ join_with sep parts
unfolding join_with onto_first
onto_first-join_with sep c [] = refl
onto_first-join_with sep c (s ∷ []) = refl
onto_first-join_with sep c (s ∷ t ∷ rest) = cons-append c s (sep ▸ join_with sep (t ∷ rest))

-- The parts, joined again, are the text.
pub join_with-split : (sep : Char) (s : String) → join_with sep (split sep s) ≡ s
unfolding join_with split
join_with-split sep nil = refl
join_with-split sep (c ▸ s) =
    let (x, xs, e) = split-nonempty sep s in
    let rest = join_with-split sep s in
    elim (Bool-cases (code c == code sep)) [
      | inl same ↦
          let p : c ≡ sep = Char-path c sep (ground arith) in
          rw (same, e)
            (nil-append (sep ▸ join_with sep (x ∷ xs))
              ∙ ap (sep ▸◌) (ap (join_with sep) (sym e) ∙ rest)
              ∙ ap (λ d. d ▸ s) (sym p))
      | inr other ↦ rw other (onto_first-join_with sep c (split sep s) ∙ ap (c ▸◌) rest)
    ]

pub join_with-append :
    (sep : Char) (x y : String) (xs ys : List String)
    → join_with sep ((x ∷ xs) ++ y ∷ ys) ≡ join_with sep (x ∷ xs) ⧺ (sep ▸ join_with sep (y ∷ ys))
unfolding join_with
join_with-append sep x y [] ys = refl
join_with-append sep x y (z ∷ xs) ys = rw (join_with-append sep z y xs ys) (
    rw
      (
        text_assoc x (sep ▸ join_with sep (z ∷ xs)) (sep ▸ join_with sep (y ∷ ys)),
        cons-append sep (join_with sep (z ∷ xs)) (sep ▸ join_with sep (y ∷ ys)),
      )
      refl)
