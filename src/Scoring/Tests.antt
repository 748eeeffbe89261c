-- ===== src/Scoring/Tests.antt =====
-- Scores of some sets of tags, and an instance of the theorem.
use xzcccc_smart_media.Base.{◌≡◌, refl, [], ◌∷◌, List, false, String, any}
use xzcccc_smart_media.Scoring.Quality.{other_points, calculate}

abbrev web_tags : List String
web_tags = "1080p" ∷ "webdl" ∷ "x265" ∷ []

web_score : calculate false web_tags ≡ 37
unfolding calculate other_points any
web_score = refl

-- A second resolution costs two points here.
both_score : calculate false ("4k" ∷ web_tags) ≡ 35
unfolding calculate other_points any
both_score = refl
