-- ===== src/Dict/Length.antt =====
-- How many entries the operations on a dictionary leave.
use xzcccc_smart_media.Base.{
  ◌+◌, ◌≤◌, ◌≡◌, refl, String, [], ◌∷◌, false, if◌then◌else◌, str_eq, arith, length, Bool-cases,
  inl, inr, eq_iff,
}
use mathlib.Core.Path.{subst}
use xzcccc_smart_media.Dict.{Dict, get, contains, remove, put, IsDict, remove_absent}

module _ {ℓ} {V : Type ℓ} where
  pub length-remove :
      (k : String) (d : Dict V)
      → IsDict d
      → length (remove k d) + (if contains k d then 1 else 0) ≡ length d
  unfolding get remove
  length-remove k [] h = refl
  length-remove k ((i, w) ∷ d) h = elim (Bool-cases (str_eq i k)) [
    | inl e ↦
        let same : i ≡ k = (eq_iff i k).0 e in
        let gone : contains k d ≡ false = subst (λ j. contains j d ≡ false) same h.0 in
        rw e (rw (remove_absent k d gone) (omega arith))
    | inr e ↦ rw e (omega (arith, length-remove k d h.1))
  ]

  pub length-remove-le : (k : String) (d : Dict V) → length (remove k d) ≤ length d
  unfolding remove
  length-remove-le k [] = ground arith
  length-remove-le k ((i, w) ∷ d) = ground (arith, length-remove-le k d)

  pub length-put :
      (k : String) (v : V) (d : Dict V)
      → length (put k v d) ≡ length d + (if contains k d then 0 else 1)
  unfolding get put
  length-put k v [] = refl
  length-put k v ((i, w) ∷ d) = ground (arith, length-put k v d)

  pub length-put-le : (k : String) (v : V) (d : Dict V) → length (put k v d) ≤ length d + 1
  unfolding put
  length-put-le k v [] = ground arith
  length-put-le k v ((i, w) ∷ d) = ground (arith, length-put-le k v d)
