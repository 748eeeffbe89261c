-- ===== src/Lru/Tests.antt =====
-- Concrete caches: runs of the LRU cache, and its theorems at inputs that meet their hypotheses.
use xzcccc_smart_media.Base.{ℕ, ◌≡◌, refl, String, [], ◌∷◌, true, Option, none, some, arith, keep}
use xzcccc_smart_media.Dict
use xzcccc_smart_media.Lru.Cache.{
  Entry, LruCache, ok, key_error, no_stats, init, expired, get, make_room, set, delete, clear,
  cleanup_expired, contains,
}
use xzcccc_smart_media.Lru.Invariant.{IsValid, set-IsValid}
use xzcccc_smart_media.Lru.Lookup.{victim}
use xzcccc_smart_media.Lru.Recency.{run, apply}
use xzcccc_smart_media.Lru.MultiLevel.{
  MultiLevel, IsValidMulti, call, get_l2, get_multi, set_multi, Remembers, call-Remembers,
}

program : Unit {0}
unfolding Dict.get Dict.remove Dict.put init expired get make_room set delete clear cleanup_expired
    contains victim run apply call get_l2 get_multi set_multi keep
program = tt

abbrev entry : ℕ → ℕ → Entry ℕ
entry v at = record { value = some v; timestamp = at; ttl = none }

abbrev two : LruCache ℕ
two = record {
  maxsize = 2;
  ttl = some 60;
  enable_stats = true;
  cache = ("a", entry 1 0) ∷ ("b", entry 2 5) ∷ [];
  stats = no_stats;
}

two-IsValid : IsValid two
unfolding Dict.get
two-IsValid = record {
  positive = omega arith;
  distinct = (refl, (refl, tt));
  bounded = omega arith;
}

abbrev after_c : LruCache ℕ
after_c = record two {
  cache = ("b", entry 2 5) ∷ ("c", entry 3 9) ∷ [];
  stats = record no_stats { sets = 1; evictions = 1 };
}

evicts_oldest : set 9 "c" (some 3) none two ≡ ok after_c
unfolding program
evicts_oldest = refl

-- The use of "a" makes "b" the oldest entry.
use_changes_order :
    set 9 "c" (some 3) none (get 8 "a" two).0
    ≡ ok (record two {
      cache = ("a", entry 1 0) ∷ ("c", entry 3 9) ∷ [];
      stats = record no_stats { sets = 1; evictions = 1; hits = 1 };
    })
unfolding program
use_changes_order = refl

-- With room for no entry `set` raises KeyError.
no_room : set {V = ℕ} 9 "c" (some 3) none (init 0 none true) ≡ key_error
unfolding program
no_room = refl

expires : (get 60000001 "a" two).1 ≡ none
unfolding program
expires = refl

set-IsValid_example : (c' : LruCache ℕ) × (set 9 "c" (some 3) none two ≡ ok c') × IsValid c'
set-IsValid_example = set-IsValid 9 "c" (some 3) none two two-IsValid

abbrev square : String → Option ℕ
square k = some 7

abbrev memo : LruCache ℕ
memo = record two { cache = [] }

call-Remembers_example :
    (c' : LruCache ℕ) × (call 3 "x" (square "x") memo ≡ ok (c', square "x"))
    × IsValid c'
    × Remembers square c'
unfolding Dict.get
call-Remembers_example =
    call-Remembers square 3 "x" memo
      (record { positive = omega arith; distinct = tt; bounded = omega arith })
      (λ k e found. absurd (ground arith))

abbrev multi : MultiLevel ℕ
multi = record {
  l1_cache = memo;
  l2_cache = record memo { ttl = some 3600 };
  l1_hits = 0;
  l2_hits = 0;
  misses = 0;
}

abbrev multi' : MultiLevel ℕ
multi' = record multi {
  l1_cache = record memo { cache = ("x", entry 5 3) ∷ []; stats = record no_stats { sets = 1 } };
  l2_cache = record memo {
    ttl = some 3600;
    cache = ("x", entry 5 3) ∷ [];
    stats = record no_stats { sets = 1 };
  };
}

multi-IsValid : IsValidMulti multi
multi-IsValid = record {
  l1 = record { positive = omega arith; distinct = tt; bounded = omega arith };
  l2 = record { positive = omega arith; distinct = tt; bounded = omega arith };
}
