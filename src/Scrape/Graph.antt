-- ===== src/Scrape/Graph.antt =====
-- The workflow as a graph: which changes the two tests admit, and where they lead.
use xzcccc_smart_media.Base.{
  ◌≡◌, refl, String, Bool, true, false, str_eq, eq_iff, any, arith, Bool-cases, inl, inr, All,
}
use mathlib.Core.Path.{subst}
use xzcccc_smart_media.Dict
use xzcccc_smart_media.Dict.{All-contains}
use xzcccc_smart_media.Scrape.Machine.{
  Outcome, ok, is_valid_status, is_listed, can_transition, assert_transition, allowed_transitions,
}

abbrev pub is_ok : Outcome → Bool
is_ok (ok r) = true
is_ok _ = false

no_loops : All (λ item. is_listed item.0 item.0 ≡ false) allowed_transitions
unfolding is_listed Dict.get any
no_loops = (refl, (refl, (refl, (refl, (refl, (refl, (refl, (refl, tt))))))))

-- No status is listed as its own successor.
not-is_listed_self : (s : String) → is_valid_status s ≡ true → is_listed s s ≡ false
unfolding is_valid_status
not-is_listed_self s valid =
    All-contains (λ x. is_listed x x ≡ false) s allowed_transitions no_loops valid

-- The two tests agree: `assert_transition` raises exactly where `can_transition` says no, for all
-- strings, with and without changes to the same state; and what it returns names the two statuses
-- and says whether they differ.
pub can_transition-assert_transition :
    (same : Bool) (current target : String)
    → can_transition same current target ≡ is_ok (assert_transition same current target)
unfolding can_transition assert_transition
can_transition-assert_transition same current target = elim (Bool-cases (is_valid_status current)) [
  | inr unknown ↦ rw (unknown, can_transition)
  | inl valid ↦ elim (Bool-cases (str_eq current target)) [
    | inr other ↦ ground arith
    | inl e ↦
        let p : current ≡ target = (eq_iff current target).0 e in
        let loop : is_listed current target ≡ false =
          subst (λ t. is_listed current t ≡ false) p (not-is_listed_self current valid) in
        ground arith
  ]
]

-- One accepted change of status.
pub data Reach : String → String → Type 0 where
  here : {s : String} → Reach s s
  step : {s t u : String} → can_transition true s t ≡ true → Reach t u → Reach s u

routes : All (λ item. Reach item.0 "renamed") allowed_transitions
unfolding can_transition is_valid_status is_listed Dict.get any
routes =
    let scraped : Reach "scraped" "renamed" = step {t = "renamed"} refl here in
    let scraping : Reach "scraping" "renamed" = step {t = "scraped"} refl scraped in
    let scanned : Reach "scanned" "renamed" = step {t = "scraping"} refl scraping in
    let pending : Reach "pending" "renamed" = step {t = "scanned"} refl scanned in
    let renaming : Reach "renaming" "renamed" = step {t = "renamed"} refl here in
    let scrape_failed : Reach "scrape_failed" "renamed" = step {t = "scanned"} refl scanned in
    let rename_failed : Reach "rename_failed" "renamed" = step {t = "renaming"} refl renaming in
    (
      pending,
      (scanned, (scraping, (scraped, (renaming, (here, (scrape_failed, (rename_failed, tt))))))),
    )

can_transition-renamed : (t : String) → can_transition true "renamed" t ≡ true → t ≡ "renamed"
unfolding can_transition is_listed Dict.get any
can_transition-renamed t h = ground (arith, eq_iff "renamed" t)

Reach-of_final : (s t : String) → Reach s t → s ≡ "renamed" → t ≡ "renamed"
Reach-of_final s t here e = e
Reach-of_final s t (step {t = v} h r) e =
    Reach-of_final v t r
      (can_transition-renamed v (subst (λ x. can_transition true x v ≡ true) e h))

-- From every status the workflow can still end in "renamed", also from the two failures.
pub Reach-renamed : (s : String) → is_valid_status s ≡ true → Reach s "renamed"
unfolding is_valid_status
Reach-renamed s valid = All-contains (λ x. Reach x "renamed") s allowed_transitions routes valid

-- "renamed" is final: whatever follows it is "renamed".
pub renamed_final : (t : String) → Reach "renamed" t → t ≡ "renamed"
renamed_final t r = Reach-of_final "renamed" t r refl
