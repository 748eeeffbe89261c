-- ===== src/Playback/Texts.antt =====
-- The text operations that the playback services take from Python's library, and what they rely on.
use xzcccc_smart_media.Base.{String, Bool}

-- `clean s` is `s.strip().lower()`, `lower s` is `s.lower()`, `hostname` is `urlparse(url).hostname or ""`, `includes` is the
-- test `a in b` and `matches` is `fnmatch(host, pattern)`.
pub record Texts : Type 0 where
  pub clean : String → String
  pub lower : String → String
  pub hostname : String → String
  pub includes : String → String → Bool
  pub matches : String → String → Bool
