-- ===== src/Scrape/Machine.antt =====
-- `ScrapeStateMachine` of app/services/media/scrape_state_machine.py. A status is a string, as in
-- the code, which has to reject the strings that are none.
use xzcccc_smart_media.Base.{
  String, List, [], ◌∷◌, Bool, true, false, not, ◌&&◌, ◌||◌, none, some, if◌then◌else◌, str_eq, any,
}
use xzcccc_smart_media.Dict
use xzcccc_smart_media.Dict.{Dict}

-- ALLOWED_SCRAPE_TRANSITIONS
abbrev pub allowed_transitions : Dict (List String)
allowed_transitions =
    ("pending", "scanned" ∷ "scrape_failed" ∷ [])
    ∷ ("scanned", "scraping" ∷ "scrape_failed" ∷ [])
    ∷ ("scraping", "scraped" ∷ "scrape_failed" ∷ [])
    ∷ ("scraped", "renaming" ∷ "renamed" ∷ "rename_failed" ∷ [])
    ∷ ("renaming", "renamed" ∷ "rename_failed" ∷ [])
    ∷ ("renamed", [])
    ∷ ("scrape_failed", "scanned" ∷ [])
    ∷ ("rename_failed", "renaming" ∷ "scanned" ∷ [])
    ∷ []

pub record TransitionResult : Type 0 where
  pub current : String
  pub target : String
  pub changed : Bool

-- What `assert_transition` returns or says in its ValueError.
pub data Outcome : Type 0 where
  ok : TransitionResult → Outcome
  unknown_current : Outcome
  unknown_target : Outcome
  invalid_transition : Outcome

unfoldable pub is_valid_status : String → Bool
is_valid_status status = Dict.contains status allowed_transitions

-- `target in ALLOWED_SCRAPE_TRANSITIONS[current]`, for a valid status `current`
unfoldable pub is_listed : String → String → Bool
is_listed current target = elim (Dict.get current allowed_transitions) [
  | none ↦ false
  | some targets ↦ any (λ t. str_eq t target) targets
]

unfoldable pub can_transition : Bool → String → String → Bool
can_transition allow_same_state current target =
    if not (is_valid_status current) || not (is_valid_status target)
    then false
    else if str_eq current target
    then allow_same_state
    else is_listed current target

unfoldable pub assert_transition : Bool → String → String → Outcome
assert_transition allow_same_state current target =
    if not (is_valid_status current)
    then unknown_current
    else if not (is_valid_status target)
    then unknown_target
    else if str_eq current target && allow_same_state
    then ok (record { current = current; target = target; changed = false })
    else if not (is_listed current target)
    then invalid_transition
    else ok (record { current = current; target = target; changed = true })
