-- ===== src/Manager/Decimal.antt =====
-- A number printed in a text, as Python's `f"v{version}:{key}"` does.
use Prim.Native.Char.{Char, code}
use Prim.Native.String.{String, [], ◌∷◌}
use text.Mathlib.TextLemmas.{tail-eq_of_cons-eq}
use xzcccc_smart_media.Base.{
  ℕ, zero, suc, ◌+◌, ◌-◌, ◌*◌, ◌≤◌, ◌<◌, ◌≡◌, refl, sym, Option, none, some, ltb, ◌==◌,
  if◌then◌else◌, arith, Bool-cases, inl, inr, ◌∙◌, ap, ltb→lt,
}
use Prim.Native.Nat.{◌/◌, ◌%◌}

unfoldable pub digit : ℕ → Char
digit zero = "0"
digit (suc zero) = "1"
digit (suc (suc zero)) = "2"
digit (suc (suc (suc zero))) = "3"
digit (suc (suc (suc (suc zero)))) = "4"
digit (suc (suc (suc (suc (suc zero))))) = "5"
digit (suc (suc (suc (suc (suc (suc zero)))))) = "6"
digit (suc (suc (suc (suc (suc (suc (suc zero))))))) = "7"
digit (suc (suc (suc (suc (suc (suc (suc (suc zero)))))))) = "8"
digit _ = "9"

-- The digits of a number in front of a text; a fuel of the number itself is enough.
unfoldable pub decimals : ℕ → ℕ → String → String
decimals zero n tail = digit n ∷ tail
decimals (suc fuel) n tail =
    let rest = decimals fuel (n / 10) (digit (n % 10) ∷ tail) in
    if ltb n 10 then digit n ∷ tail else rest

-- `f"v{version}:{key}"`
unfoldable pub versioned : ℕ → String → String
versioned version key = "v" ∷ decimals version version (":" ∷ key)

-- The number in front of a colon, and what follows the colon.
read : ℕ → String → Option (ℕ × String)
read n [] = none
read n (c ∷ s) = if code c == 58 then some (n, s) else read (n * 10 + (code c - 48)) s

read-digit : (n d : ℕ) (s : String) → d < 10 → read n (digit d ∷ s) ≡ read (n * 10 + d) s
unfolding read digit
read-digit n zero s h = refl
read-digit n (suc zero) s h = refl
read-digit n (suc (suc zero)) s h = refl
read-digit n (suc (suc (suc zero))) s h = refl
read-digit n (suc (suc (suc (suc zero)))) s h = refl
read-digit n (suc (suc (suc (suc (suc zero))))) s h = refl
read-digit n (suc (suc (suc (suc (suc (suc zero)))))) s h = refl
read-digit n (suc (suc (suc (suc (suc (suc (suc zero))))))) s h = refl
read-digit n (suc (suc (suc (suc (suc (suc (suc (suc zero)))))))) s h = refl
read-digit n (suc (suc (suc (suc (suc (suc (suc (suc (suc zero))))))))) s h = refl
read-digit n (suc (suc (suc (suc (suc (suc (suc (suc (suc (suc d)))))))))) s h =
    absurd (omega arith)

read-decimals :
    (fuel n : ℕ) (tail : String) → n ≤ fuel → read 0 (decimals fuel n tail) ≡ read n tail
unfolding decimals
read-decimals zero n tail h =
    let z : n ≡ 0 = omega arith in
    read-digit 0 n tail (omega arith) ∙ ap (λ m. read m tail) (omega arith)
read-decimals (suc fuel) n tail h = elim (Bool-cases (ltb n 10)) [
  | inl small ↦
      rw small (read-digit 0 n tail (ltb→lt n 10 small) ∙ ap (λ m. read m tail) (omega arith))
  | inr large ↦
      let below : 10 ≤ n = ground arith in
      rw large (
        read-decimals fuel (n / 10) (digit (n % 10) ∷ tail) (omega arith)
        ∙ read-digit (n / 10) (n % 10) tail (omega arith)
        ∙ ap (λ m. read m tail) (omega arith))
]

-- What `versioned` makes says which version and which key it was made of.
pub versioned_inj : (n m : ℕ) (x y : String) → versioned n x ≡ versioned m y → (n ≡ m) × (x ≡ y)
versioned_inj n m x y e =
    let opened : Path String ("v" ∷ decimals n n (":" ∷ x)) ("v" ∷ decimals m m (":" ∷ y)) =
      unfold versioned in e in
    let same : Path (Option (ℕ × String)) (some (n, x)) (some (m, y)) =
      sym (read_versioned n x) ∙ ap (read 0) (tail-eq_of_cons-eq opened) ∙ read_versioned m y in
    (ground arith, ground arith)
  where
    read_versioned : (k : ℕ) (z : String) → read 0 (decimals k k (":" ∷ z)) ≡ some (k, z)
    read_versioned k z = read-decimals k k (":" ∷ z) (omega arith) ∙ unfold read in refl
