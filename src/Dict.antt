-- ===== src/Dict.antt =====
-- Python's `dict` and `OrderedDict` with string keys, as a list of entries in insertion order.
pub mod Length
use xzcccc_smart_media.Base.{
  ℕ, suc, ◌≡◌, ◌≢◌, refl, String, List, [], ◌∷◌, ◌++◌, Bool, true, false, ◌||◌, Option, none, some,
  if◌then◌else◌, str_eq, arith, is_some, eq_iff, keep, Bool-cases, inl, inr, All,
}
use mathlib.Core.Path.{subst}

abbrev pub Dict {ℓ} : Type ℓ → Type ℓ
Dict V = List (String × V)

module _ {ℓ} {V : Type ℓ} where
  -- `d.get(k)`
  unfoldable pub get : String → Dict V → Option V
  get k [] = none
  get k ((j, v) ∷ d) = if str_eq j k then some v else get k d

  -- `k in d`
  abbrev pub contains : String → Dict V → Bool
  contains k d = is_some (get k d)

  -- `d.pop(k, None)`, and `del d[k]` for a key that is there
  unfoldable pub remove : String → Dict V → Dict V
  remove k [] = []
  remove k ((j, v) ∷ d) = let rest = remove k d in if str_eq j k then rest else (j, v) ∷ rest

  -- `d[k] = v`: an old key keeps its place, a new one goes to the end.
  unfoldable pub put : String → V → Dict V → Dict V
  put k v [] = (k, v) ∷ []
  put k v ((j, w) ∷ d) = if str_eq j k then (k, v) ∷ d else (j, w) ∷ put k v d

  -- Keys are distinct.
  abbrev pub IsDict : Dict V → Type 0
  IsDict [] = Unit
  IsDict ((k, v) ∷ d) = (contains k d ≡ false) × IsDict d

  pub get-remove :
      (k j : String) (d : Dict V) → get j (remove k d) ≡ (if str_eq k j then none else get j d)
  unfolding get remove
  get-remove k j [] = ground arith
  get-remove k j ((i, v) ∷ d) = ground (arith, get-remove k j d, eq_iff i k, eq_iff i j, eq_iff k j)

  pub get-put :
      (k j : String) (v : V) (d : Dict V)
      → get j (put k v d) ≡ (if str_eq k j then some v else get j d)
  unfolding get put
  get-put k j v [] = ground arith
  get-put k j v ((i, w) ∷ d) = ground (arith, get-put k j v d, eq_iff i k, eq_iff i j, eq_iff k j)

  -- An entry that is added at the end, as `d[k] = v` does for a key that is not there.
  pub get-append :
      (k j : String) (v : V) (d : Dict V)
      → contains k d ≡ false
      → get j (d ++ (k, v) ∷ []) ≡ (if str_eq k j then some v else get j d)
  unfolding get
  get-append k j v [] h = ground arith
  get-append k j v ((i, w) ∷ d) h =
      ground (arith, get-append k j v d, eq_iff i k, eq_iff i j, eq_iff k j)

  pub put_new :
      (k : String) (v : V) (d : Dict V) → contains k d ≡ false → put k v d ≡ d ++ (k, v) ∷ []
  unfolding get put
  put_new k v [] h = refl
  put_new k v ((i, w) ∷ d) h = ground (arith, put_new k v d)

  pub remove_absent : (k : String) (d : Dict V) → contains k d ≡ false → remove k d ≡ d
  unfolding get remove
  remove_absent k [] h = refl
  remove_absent k ((i, w) ∷ d) h = ground (arith, remove_absent k d)

  pub IsDict-remove : (k : String) (d : Dict V) → IsDict d → IsDict (remove k d)
  unfolding remove
  IsDict-remove k [] h = tt
  IsDict-remove k ((i, w) ∷ d) h =
      let rest = IsDict-remove k d h.1 in
      elim (Bool-cases (str_eq i k)) [
        | inl e ↦ rw e rest
        | inr e ↦ rw e (ground (arith, get-remove k i d), rest)
      ]

  pub IsDict-put : (k : String) (v : V) (d : Dict V) → IsDict d → IsDict (put k v d)
  unfolding put
  IsDict-put k v [] h = (unfold get in refl, tt)
  IsDict-put k v ((i, w) ∷ d) h = elim (Bool-cases (str_eq i k)) [
    | inl e ↦ rw e (ground (arith, eq_iff i k), h.1)
    | inr e ↦ rw e (ground (arith, get-put k i v d, eq_iff i k, eq_iff k i), IsDict-put k v d h.1)
  ]

  -- A selection of the entries keeps the keys distinct, and what it keeps is found as before.
  pub get-keep_none :
      (p : String × V → Bool) (k : String) (d : Dict V)
      → contains k d ≡ false
      → contains k (keep p d) ≡ false
  unfolding get keep
  get-keep_none p k [] h = refl
  get-keep_none p k ((i, w) ∷ d) h = ground (arith, get-keep_none p k d)

  pub IsDict-keep : (p : String × V → Bool) (d : Dict V) → IsDict d → IsDict (keep p d)
  unfolding keep
  IsDict-keep p [] h = tt
  IsDict-keep p ((i, w) ∷ d) h =
      let rest = IsDict-keep p d h.1 in
      elim (Bool-cases (p (i, w))) [
        | inl e ↦ rw e (get-keep_none p i d h.0, rest)
        | inr e ↦ rw e rest
      ]

  pub IsDict-append :
      (k : String) (v : V) (d : Dict V)
      → IsDict d
      → contains k d ≡ false
      → IsDict (d ++ (k, v) ∷ [])
  unfolding get
  IsDict-append k v [] u h = ground arith
  IsDict-append k v ((i, w) ∷ d) u h = (
    ground (arith, get-append k i v d, eq_iff i k, eq_iff k i),
    IsDict-append k v d u.1 (ground arith),
  )

-- A selection by the value, looked up.
pub get-keep {ℓ} :
    {E : Type ℓ} (p : E → Bool) (k : String) (d : Dict E)
    → IsDict d
    → get k (keep (λ item. p item.1) d)
      ≡ elim (get k d) [ none ↦ none | some e ↦ if p e then some e else none ]
unfolding get keep
get-keep p k [] u = refl
get-keep p k ((j, e) ∷ d) u = ground (arith, get-keep p k d u.1, eq_iff j k)

-- What holds of every key of a dictionary holds of a key that is found.
pub All-contains {ℓ κ} :
    {V : Type ℓ} (P : String → Type κ) (k : String) (d : Dict V)
    → All (λ item. P item.0) d
    → contains k d ≡ true
    → P k
unfolding get
All-contains P k [] h c = absurd (ground arith)
All-contains P k ((j, v) ∷ d) h c = elim (Bool-cases (str_eq j k)) [
  | inl e ↦ subst P ((eq_iff j k).0 e) h.0
  | inr e ↦ All-contains P k d h.1 (ground arith)
]
