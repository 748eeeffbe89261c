-- ===== src/RateLimit/Bounds.antt =====
-- How many requests of one client `_check_rate_limit` lets through.
use xzcccc_smart_media.Base.{
  ℕ, ◌+◌, ◌≤◌, ◌<◌, ◌≡◌, refl, seconds, List, [], ◌∷◌, ◌++◌, Bool, false, ◌&&◌, ltb, leb,
  if◌then◌else◌, keep, keep-append, length, arith, Bool-cases, inl, inr, ap, ◌∙◌, sym,
}
use xzcccc_smart_media.RateLimit.Limiter.{
  RateLimitConfig, ClientState, new_client, allowed, still_blocked, now_blocked, recent,
  check_client,
}

-- Checks of one client at the given times: its last state, and the times of those let through.
unfoldable pub run : RateLimitConfig → List ℕ → ClientState → List ℕ → ClientState × List ℕ
run config [] s log = (s, log)
run config (now ∷ later) s log =
    let (s', verdict) = check_client config now s in
    run config later s'
      (elim verdict [ allowed ↦ log ++ now ∷ [] | still_blocked n ↦ log | now_blocked n ↦ log ])

-- A clock that does not go back: each time is at least `last` and the times before it.
abbrev pub Ascending : ℕ → List ℕ → Type 0
Ascending last [] = Unit
Ascending last (now ∷ later) = (last ≤ now) × Ascending now later

-- The times `t` in the window that ends at `end`: `end - config.seconds < t ≤ end`.
abbrev pub in_window : RateLimitConfig → ℕ → ℕ → Bool
in_window config end t = leb t end && ltb end (t + seconds config.seconds)

keep_weaker :
    (config : RateLimitConfig) (now n : ℕ) (xs : List ℕ)
    → now ≤ n
    → recent config n (recent config now xs) ≡ recent config n xs
unfolding keep
keep_weaker config now n [] h = refl
keep_weaker config now n (x ∷ xs) h = ground (arith, keep_weaker config now n xs h)

window-le-recent :
    (config : RateLimitConfig) (now end : ℕ) (xs : List ℕ)
    → now ≤ end
    → length (keep (in_window config end) xs) ≤ length (recent config now xs)
unfolding keep
window-le-recent config now end [] h = omega arith
window-le-recent config now end (x ∷ xs) h = ground (arith, window-le-recent config now end xs h)

length-keep_last :
    (p : ℕ → Bool) (x : ℕ) (xs : List ℕ)
    → length (keep p (xs ++ x ∷ [])) ≡ length (keep p xs) + (if p x then 1 else 0)
unfolding keep
length-keep_last p x [] = ground arith
length-keep_last p x (y ∷ xs) = ground (arith, length-keep_last p x xs)

at_most_one : (b : Bool) → (if b then 1 else 0) ≤ 1
at_most_one b = ground arith

-- What the state remembers of the log after the last check.
record Tracks (config : RateLimitConfig) (last : ℕ) (s : ClientState) (log : List ℕ) : Type 0 where
  same : (n : ℕ) → last ≤ n → recent config n log ≡ recent config n s.requests
  bound : (end : ℕ) → length (keep (in_window config end) log) ≤ config.requests

module _ (config : RateLimitConfig) (last now : ℕ) (s : ClientState) (log : List ℕ)
    (order : last ≤ now) (t : Tracks config last s log) where
  Tracks-refused :
      (blocked count : ℕ)
      → Tracks config now
          (record s {
            requests = recent config now s.requests;
            blocked_until = blocked;
            blocked_count = count;
          })
          log
  Tracks-refused blocked count = record {
    same = λ n le. t.same n (omega arith) ∙ sym (keep_weaker config now n s.requests le);
    bound = t.bound;
  }

  Tracks-later : Tracks config now s log
  Tracks-later = record { same = λ n le. t.same n (omega arith); bound = t.bound }

  window_room :
      (end : ℕ)
      → length (recent config now s.requests) < config.requests
      → length (keep (in_window config end) (log ++ now ∷ [])) ≤ config.requests
  window_room end room =
      let snoc = length-keep_last (in_window config end) now log in
      elim (Bool-cases (leb now end)) [
        | inl inside ↦
            let same = ap (λ (xs : List ℕ). length xs) (t.same now order) in
            omega (
              arith,
              snoc,
              window-le-recent config now end log (ground arith),
              same,
              at_most_one (in_window config end now),
            )
        | inr before ↦
            let out : in_window config end now ≡ false = rw before in
            rw snoc (rw out (omega (arith, t.bound end)))
      ]

  Tracks-allowed :
      (total : ℕ)
      → length (recent config now s.requests) < config.requests
      → Tracks config now
          (record s { requests = recent config now s.requests ++ now ∷ []; total_requests = total })
          (log ++ now ∷ [])
  Tracks-allowed total room = record {
    same = λ n le.
        keep-append _ log (now ∷ [])
        ∙ (ap (λ xs. xs ++ recent config n (now ∷ []))
              (t.same n (omega arith) ∙ sym (keep_weaker config now n s.requests le))
            ∙ sym (keep-append _ (recent config now s.requests) (now ∷ [])));
    bound = λ end. window_room end room;
  }

check_client-Tracks :
    (config : RateLimitConfig) (last now : ℕ) (s : ClientState) (log : List ℕ)
    → last ≤ now
    → Tracks config last s log
    → let (s', verdict) = check_client config now s in
      Tracks config now s'
        (elim verdict [ allowed ↦ log ++ now ∷ [] | still_blocked n ↦ log | now_blocked n ↦ log ])
unfolding check_client
check_client-Tracks config last now s log order t = elim (Bool-cases (ltb now s.blocked_until)) [
  | inl blocked ↦ rw blocked (Tracks-later config last now s log order t)
  | inr free ↦
      rw free (elim (Bool-cases (leb config.requests (length (recent config now s.requests)))) [
        | inl full ↦ rw full (Tracks-refused config last now s log order t _ _)
        | inr room ↦ rw room (Tracks-allowed config last now s log order t _ (ground arith))
      ])
]

run-Tracks :
    (config : RateLimitConfig) (times : List ℕ) (last : ℕ) (s : ClientState) (log : List ℕ)
    → Ascending last times
    → Tracks config last s log
    → (end : ℕ) → length (keep (in_window config end) (run config times s log).1) ≤ config.requests
unfolding run
run-Tracks config [] last s log order t = t.bound
run-Tracks config (now ∷ later) last s log order t =
    run-Tracks config later now (check_client config now s).0 _ order.1
      (check_client-Tracks config last now s log order.0 t)

-- Under a clock that does not go back, however often and whenever a client asks: every window of
-- `config.seconds`, wherever it ends, holds at most `config.requests` requests that were let through.
pub run-in_window :
    (config : RateLimitConfig) (times : List ℕ) (end : ℕ)
    → Ascending 0 times
    → length (keep (in_window config end) (run config times new_client []).1) ≤ config.requests
run-in_window config times end order =
    run-Tracks config times 0 new_client [] order
      (record { same = λ n le. refl; bound = λ e. unfold keep in omega arith }) end
