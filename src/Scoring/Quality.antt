-- ===== src/Scoring/Quality.antt =====
-- `QualityCalculator` of app/services/scoring/quality.py. The score between 0 and 1 is counted in
-- 110ths, as the code divides by 110 at the end. `bitrate` is whether the title names a high bit rate.
use xzcccc_smart_media.Base.{
  ℕ, ◌+◌, ◌-◌, List, Bool, ◌&&◌, ◌||◌, min, max, if◌then◌else◌, String, str_eq, any,
}

-- `tag in tags`
abbrev pub has : String → List String → Bool
has tag tags = any (λ t. str_eq t tag) tags

-- The points of a tag that is there.
abbrev pub points : Bool → ℕ → ℕ
points present n = if present then n else 0

abbrev pub resolution : Bool → Bool → Bool → ℕ
resolution is_4k is_1080p is_720p =
    if is_4k then 25 else if is_1080p then 15 else if is_720p then 6 else 0

abbrev pub video_format : Bool → Bool → Bool → Bool → ℕ
video_format bdmv remux bluray web =
    if bdmv then 35 else if remux then 30 else if bluray then 24 else if web then 18 else 0

abbrev pub dynamic_range : Bool → Bool → ℕ
dynamic_range dv hdr = points dv 20 + points hdr 10

abbrev pub audio : Bool → Bool → Bool → Bool → Bool → ℕ
audio atmos dtsx truehd dtshd ddp =
    points atmos 10 + points dtsx 8 + points truehd 6 + points dtshd 5 + points ddp 3

abbrev pub codec : Bool → Bool → ℕ
codec x265 x264 = points x265 4 + points x264 2

abbrev pub subtitles : Bool → Bool → Bool → ℕ
subtitles fx_sub cn_sub multi_audio =
    (if fx_sub then 6 else if cn_sub then 3 else 0) + points multi_audio 4

abbrev pub extras : Bool → Bool → Bool → Bool → ℕ
extras imax hfr collection bitrate =
    points imax 2 + points hfr 2 + points collection 2 + points bitrate 4

-- The points without the resolution and its penalty.
unfoldable pub other_points : Bool → List String → ℕ
other_points bitrate tags =
    video_format (has "bdmv" tags) (has "remux" tags) (has "bluray" tags)
      (has "webdl" tags || has "webrip" tags)
    + dynamic_range (has "dv" tags) (has "hdr" tags)
    + audio (has "atmos" tags) (has "dtsx" tags) (has "truehd" tags) (has "dtshd" tags)
        (has "ddp" tags)
    + codec (has "x265" tags) (has "x264" tags)
    + subtitles (has "fx_sub" tags) (has "cn_sub" tags) (has "multi_audio" tags)
    + extras (has "imax" tags) (has "hfr" tags) (has "collection" tags) bitrate

-- `calculate`: the points with the penalty for two resolutions, between 0 and 110
unfoldable pub calculate : Bool → List String → ℕ
calculate bitrate tags =
    let pts =
      resolution (has "4k" tags) (has "1080p" tags) (has "720p" tags) + other_points bitrate tags in
    max 0 (min 110 (if has "4k" tags && has "1080p" tags then pts - 12 else pts))
