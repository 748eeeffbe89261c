-- ===== src/Text/Strip.antt =====
-- `s.rstrip(c)` and `s.endswith(c)` for one character.
use Prim.Native.Char.{Char, code}
use Prim.Native.String.{String, [] as nil, ◌∷◌ as ◌▸◌, ◌++◌ as ◌⧺◌}
use text.Mathlib.TextLemmas.{nil-append, cons-append}
use text.Mathlib.TextEquality.{Char-path}
use xzcccc_smart_media.Base.{
  ◌≡◌, refl, sym, ap, ◌∙◌, Bool, true, false, ◌==◌, if◌then◌else◌, arith, Bool-cases, inl, inr, ◌⊎◌,
}

unfoldable pub ends_with : Char → String → Bool
ends_with c nil = false
ends_with c (d ▸ nil) = code d == code c
ends_with c (d ▸ e ▸ s) = ends_with c (e ▸ s)

-- A character in front of what is left of the rest.
unfoldable pub keep_front : Char → Char → String → String
keep_front c d nil = if code d == code c then nil else d ▸ nil
keep_front c d (e ▸ s) = d ▸ e ▸ s

unfoldable pub rstrip : Char → String → String
rstrip c nil = nil
rstrip c (d ▸ s) = keep_front c d (rstrip c s)

keep_front-append :
    (c d : Char) (r u : String) → (v : String) × (d ▸ (r ⧺ (c ▸ u)) ≡ keep_front c d r ⧺ (c ▸ v))
unfolding keep_front
keep_front-append c d nil u = elim (Bool-cases (code d == code c)) [
  | inl same ↦
      let p : d ≡ c = Char-path d c (ground arith) in
      ("" ⧺ (c ▸ u), rw same (rw p (sym (nil-append (c ▸ ("" ⧺ (c ▸ u)))))))
  | inr other ↦ (u, rw other (sym (cons-append d "" (c ▸ u))))
]
keep_front-append c d (a ▸ b) u = (u, sym (cons-append d (a ▸ b) (c ▸ u)))

-- What `rstrip` takes away begins with the character, if it is anything.
pub rstrip-cases :
    (c : Char) (s : String)
    → ((ends_with c s ≡ false) × (rstrip c s ≡ s))
      ⊎ ((u : String) × (ends_with c s ≡ true) × (s ≡ rstrip c s ⧺ (c ▸ u)))
unfolding rstrip keep_front ends_with
rstrip-cases c nil = inl (refl, refl)
rstrip-cases c (d ▸ nil) = elim (Bool-cases (code d == code c)) [
  | inl same ↦
      let p : d ≡ c = Char-path d c (ground arith) in
      inr ("", same, rw same (rw p (sym (nil-append (c ▸ "")))))
  | inr other ↦ inl (other, rw other refl)
]
rstrip-cases c (d ▸ e ▸ s) = elim (rstrip-cases c (e ▸ s)) [
  | inl (ends, same) ↦ inl (ends, rw same refl)
  | inr (u, ends, same) ↦
      let (v, back) = keep_front-append c d (rstrip c (e ▸ s)) u in
      inr (v, ends, ap (d ▸◌) same ∙ back)
]

pub rstrip-append : (c : Char) (s : String) → rstrip c (s ⧺ (c ▸ "")) ≡ rstrip c s
unfolding rstrip keep_front
rstrip-append c nil =
    let self : (code c == code c) ≡ true = ground arith in rw (nil-append (c ▸ ""), self) refl
rstrip-append c (d ▸ s) = rw (cons-append d s (c ▸ ""), rstrip-append c s) refl
