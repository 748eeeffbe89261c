-- ===== src/Tiered/Level.antt =====
-- One level of the cache as app/services/tiered_cache.py uses it, and what a level promises.
use xzcccc_smart_media.Base.{ℕ, ◌≡◌, Bool, false, if◌then◌else◌, String, str_eq, Option, some}

-- The operations of a level whose state is S. The first argument of `get` and `set` is the time;
-- `set` is none where it raises; the Boolean of `delete` and `clear` is the truth of their result.
pub record Level (S V : Type 0) : Type 0 where
  pub get : ℕ → String → S → S × Option V
  pub set : ℕ → String → V → Option ℕ → S → Option S
  pub delete : String → S → S × Bool
  pub clear : S → S × Bool

-- A level may forget a value at any time, but it holds no value that was not set for that key, or
-- that was replaced or deleted since.
pub record IsLevel (S V : Type 0) (o : Level S V) : Type 1 where
  pub IsGood : S → Type 0
  pub Holds : String → V → S → Type 0
  pub get_good : (now : ℕ) (k : String) (s : S) → IsGood s → IsGood (o.get now k s).0
  pub get_sound : (now : ℕ) (k : String) (s : S) (v : V) → (o.get now k s).1 ≡ some v → Holds k v s
  pub get_keeps :
      (now : ℕ) (k j : String) (s : S) (v : V) → Holds j v (o.get now k s).0 → Holds j v s
  pub set_lem :
      (now : ℕ) (k : String) (w : V) (ttl : Option ℕ) (s : S)
      → IsGood s
      → (s' : S) × (o.set now k w ttl s ≡ some s')
        × IsGood s'
        × ((j : String) (v : V) → Holds j v s' → if str_eq k j then v ≡ w else Holds j v s)
        × ((o.get now k s').1 ≡ some w)
  pub delete_good : (k : String) (s : S) → IsGood s → IsGood (o.delete k s).0
  pub delete_sound :
      (k j : String) (s : S) (v : V)
      → IsGood s
      → Holds j v (o.delete k s).0
      → (str_eq k j ≡ false) × Holds j v s
  pub clear_good : (s : S) → IsGood s → IsGood (o.clear s).0
  pub clear_sound : (j : String) (s : S) (v : V) → ¬ Holds j v (o.clear s).0
