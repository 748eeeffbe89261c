-- ===== src/Scoring/Monotone.antt =====
-- What a further tag does to the score.
use xzcccc_smart_media.Base.{
  ℕ, ◌+◌, ◌-◌, ◌≤◌, ◌≡◌, refl, List, ◌∷◌, Bool, true, false, not, ◌&&◌, ◌||◌, min, max,
  if◌then◌else◌, String, str_eq, any, arith,
}
use xzcccc_smart_media.Scoring.Quality.{
  has, points, resolution, video_format, subtitles, other_points, calculate,
}

-- The second is true where the first is.
abbrev Below : Bool → Bool → Type 0
Below b c = (not b || c) ≡ true

has-Below : (tag t : String) (tags : List String) → Below (has tag tags) (has tag (t ∷ tags))
unfolding any
has-Below tag t tags = ground arith

points-le : (b c : Bool) (n : ℕ) → Below b c → points b n ≤ points c n
points-le b c n h = ground arith

video_format-le :
    (a b c d a' b' c' d' : Bool)
    → Below a a'
    → Below b b'
    → Below c c'
    → Below d d'
    → video_format a b c d ≤ video_format a' b' c' d'
video_format-le a b c d a' b' c' d' ha hb hc hd = ground arith

subtitles-le :
    (a b c a' b' c' : Bool)
    → Below a a'
    → Below b b'
    → Below c c'
    → subtitles a b c ≤ subtitles a' b' c'
subtitles-le a b c a' b' c' ha hb hc = ground arith

either-Below : (a b a' b' : Bool) → Below a a' → Below b b' → Below (a || b) (a' || b')
either-Below a b a' b' ha hb = ground arith

other_points-le :
    (bitrate : Bool) (t : String) (tags : List String)
    → other_points bitrate tags ≤ other_points bitrate (t ∷ tags)
unfolding other_points
other_points-le bitrate t tags =
    let one = λ (tag : String) (n : ℕ).
      points-le (has tag tags) (has tag (t ∷ tags)) n (has-Below tag t tags) in
    let formats =
      video_format-le (has "bdmv" tags) (has "remux" tags) (has "bluray" tags)
        (has "webdl" tags || has "webrip" tags) (has "bdmv" (t ∷ tags)) (has "remux" (t ∷ tags))
        (has "bluray" (t ∷ tags)) (has "webdl" (t ∷ tags) || has "webrip" (t ∷ tags))
        (has-Below "bdmv" t tags) (has-Below "remux" t tags) (has-Below "bluray" t tags)
        (either-Below (has "webdl" tags) (has "webrip" tags) (has "webdl" (t ∷ tags))
          (has "webrip" (t ∷ tags)) (has-Below "webdl" t tags) (has-Below "webrip" t tags)) in
    let texts =
      subtitles-le (has "fx_sub" tags) (has "cn_sub" tags) (has "multi_audio" tags)
        (has "fx_sub" (t ∷ tags)) (has "cn_sub" (t ∷ tags)) (has "multi_audio" (t ∷ tags))
        (has-Below "fx_sub" t tags) (has-Below "cn_sub" t tags) (has-Below "multi_audio" t tags) in
    omega (
      arith,
      formats,
      texts,
      one "dv" 20,
      one "hdr" 10,
      one "atmos" 10,
      one "dtsx" 8,
      one "truehd" 6,
      one "dtshd" 5,
      one "ddp" 3,
      one "x265" 4,
      one "x264" 2,
      one "imax" 2,
      one "hfr" 2,
      one "collection" 2,
    )

has-other :
    (tag t : String) (tags : List String) → str_eq t tag ≡ false → has tag (t ∷ tags) ≡ has tag tags
unfolding any
has-other tag t tags other = rw other refl

resolution-le : (a b c c' : Bool) → Below c c' → resolution a b c ≤ resolution a b c'
resolution-le a b c c' hc = ground arith

penalised-le :
    (m n : ℕ) (b : Bool)
    → m ≤ n
    → max 0 (min 110 (if b then m - 12 else m)) ≤ max 0 (min 110 (if b then n - 12 else n))
penalised-le m n b h = ground arith

-- The score is at most 1, which is 110 parts of 110, and a further tag never lowers it, unless the tag is one of the
-- two resolutions 4k and 1080p.
pub calculate-le :
    (bitrate : Bool) (t : String) (tags : List String)
    → str_eq t "4k" ≡ false
    → str_eq t "1080p" ≡ false
    → (calculate bitrate tags ≤ calculate bitrate (t ∷ tags)) × (calculate bitrate (t ∷ tags) ≤ 110)
unfolding calculate
calculate-le bitrate t tags not_4k not_1080p =
    let more = other_points-le bitrate t tags in
    let res =
      resolution-le (has "4k" tags) (has "1080p" tags) (has "720p" tags) (has "720p" (t ∷ tags))
        (has-Below "720p" t tags) in
    let total : resolution (has "4k" tags) (has "1080p" tags) (has "720p" tags)
          + other_points bitrate tags
        ≤ resolution (has "4k" tags) (has "1080p" tags) (has "720p" (t ∷ tags))
          + other_points bitrate (t ∷ tags) =
      omega (arith, more, res) in
    (
      rw (has-other "4k" t tags not_4k, has-other "1080p" t tags not_1080p)
          (penalised-le
            (resolution (has "4k" tags) (has "1080p" tags) (has "720p" tags)
              + other_points bitrate tags)
            (resolution (has "4k" tags) (has "1080p" tags) (has "720p" (t ∷ tags))
              + other_points bitrate (t ∷ tags))
            (has "4k" tags && has "1080p" tags) total),
      omega arith,
    )
