-- ===== src/Scrape/Tests.antt =====
-- The theorems of the scraping workflow at concrete statuses, and runs.
use xzcccc_smart_media.Base.{◌≡◌, refl, true, any}
use xzcccc_smart_media.Dict
use xzcccc_smart_media.Scrape.Machine.{
  is_valid_status, is_listed, can_transition, assert_transition, invalid_transition,
}
use xzcccc_smart_media.Scrape.Graph.{Reach, Reach-renamed}

program : Unit {0}
unfolding is_valid_status is_listed can_transition assert_transition Dict.get any
program = tt

no_shortcut : assert_transition true "pending" "renamed" ≡ invalid_transition
unfolding program
no_shortcut = refl

Reach-renamed_example : Reach "rename_failed" "renamed"
unfolding program
Reach-renamed_example = Reach-renamed "rename_failed" refl
