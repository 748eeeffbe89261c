-- ===== src/Tiered/Tests.antt =====
-- Runs of the cache of several levels, and the theorems on a memory of two entries over a disk.
use xzcccc_smart_media.Base.{ℕ, ◌≡◌, refl, sym, List, [], ◌∷◌, true, String, none, some, arith}
use xzcccc_smart_media.Dict.{Dict, get, IsDict}
use xzcccc_smart_media.Lru.Cache as Lru
use xzcccc_smart_media.Lru.Cache.{LruCache}
use xzcccc_smart_media.Lru.Invariant.{IsValid}
use xzcccc_smart_media.Tiered.Level.{Level, IsLevel}
use xzcccc_smart_media.Tiered.Cache as Cache
use xzcccc_smart_media.Tiered.Cache.{TieredCache, QueuedWrite, fetched}
use xzcccc_smart_media.Tiered.Disk.{DiskRow, Codec, IsCodec, json}
use xzcccc_smart_media.Tiered.DiskBulk.{disk_get_many}
use xzcccc_smart_media.Tiered.DiskLevel.{disk_level, disk-IsLevel}
use xzcccc_smart_media.Tiered.Memory.{memory_level, memory-IsLevel}
use xzcccc_smart_media.Tiered.Refine.{IsCoherent}
use xzcccc_smart_media.Tiered.Warmup.{IsBulk}
use xzcccc_smart_media.Tiered.DiskWarm.{disk_get_many-IsBulk}
use xzcccc_smart_media.Tiered.Runs.{
  CacheRequest, get_key, set_key, delete_key, warm_up, Refines, run-Refines,
}
use xzcccc_smart_media.Tiered.Revival.{deleted_value_returns}

abbrev text_codec : Codec String String
text_codec = record {
  json_dumps = λ v. some v;
  pickle_dumps = λ v. some v;
  json_loads = λ d. some d;
  pickle_loads = λ d. some d;
}

text_codec-IsCodec : IsCodec text_codec
text_codec-IsCodec = record {
  total = λ v e. (v, refl);
  json_back = λ v d e. sym e;
  pickle_back = λ v d e. sym e;
}

abbrev disk : Level (Dict (DiskRow String)) String
disk = disk_level text_codec 3600

disk_laws : IsLevel (Dict (DiskRow String)) String disk
disk_laws = disk-IsLevel text_codec 3600 text_codec-IsCodec

abbrev memory : Level (LruCache String) String
memory = memory_level

abbrev Small : Type 0
Small = TieredCache (LruCache String) (Dict (DiskRow String)) (Dict (DiskRow String)) String

abbrev empty_memory : LruCache String
empty_memory = record {
  maxsize = 2;
  ttl = some 600;
  enable_stats = true;
  cache = [];
  stats = Lru.no_stats;
}

abbrev empty_cache : Small
empty_cache = record { l1 = some empty_memory; l2 = some []; l3 = none; write_queue = [] }

empty_memory-IsValid : IsValid empty_memory
empty_memory-IsValid = record { positive = omega arith; distinct = tt; bounded = omega arith }

empty_cache-IsCoherent :
    IsCoherent memory disk disk memory-IsLevel disk_laws disk_laws [] empty_cache
unfolding memory-IsLevel disk_laws disk-IsLevel get
empty_cache-IsCoherent = (
  (empty_memory-IsValid, λ k v (e, found, holds). absurd (ground arith)),
  (tt, λ k v (row, found, back). absurd (ground arith)),
  tt,
  refl,
)

abbrev requests : List (ℕ × CacheRequest String)
requests =
    (0, set_key "movie" "1917" none)
    ∷ (5, get_key "movie")
    ∷ (6, delete_key "movie")
    ∷ (7, warm_up ("movie" ∷ []))
    ∷ (8, get_key "movie")
    ∷ []

disk_bulk : IsBulk disk disk_laws (disk_get_many text_codec true)
unfolding disk_laws
disk_bulk = disk_get_many-IsBulk text_codec 3600 text_codec-IsCodec

run-Refines_example :
    Refines memory disk disk memory-IsLevel disk_laws disk_laws
      (disk_get_many text_codec true)
      disk_bulk
      []
      empty_cache
      requests
run-Refines_example =
    run-Refines memory disk disk memory-IsLevel disk_laws disk_laws (disk_get_many text_codec true)
      disk_bulk requests [] empty_cache empty_cache-IsCoherent

abbrev waiting : QueuedWrite String
waiting = record { key = "movie"; queued_value = "1917"; queued_ttl = none }

empty_memory-good : IsLevel.IsGood memory-IsLevel empty_memory
unfolding memory-IsLevel
empty_memory-good = empty_memory-IsValid

empty_disk-good : IsLevel.IsGood disk_laws []
unfolding disk_laws disk-IsLevel
empty_disk-good = tt

deleted_value_returns_example :
    (Cache.get memory disk disk 9 "movie" (
      Cache.drain memory disk disk 9
        (Cache.delete memory disk disk "movie" (record {
          l1 = some empty_memory;
          l2 = some [];
          l3 = none;
          write_queue = waiting ∷ [];
        })).0)).1
    ≡ fetched (some "1917")
deleted_value_returns_example =
    deleted_value_returns memory disk disk memory-IsLevel disk_laws 9 waiting empty_memory [] none
      empty_memory-good empty_disk-good

abbrev row_until : ℕ → DiskRow String
row_until t = record {
  row_value = "1917";
  value_type = json;
  created_at = 0;
  expires_at = some t;
  access_count = 0;
  last_access = 0;
}

abbrev two_rows : Dict (DiskRow String)
two_rows = ("old", row_until 3) ∷ ("movie", row_until 90) ∷ []

two_rows-IsDict : IsDict two_rows
unfolding get
two_rows-IsDict = (refl, (refl, tt))
