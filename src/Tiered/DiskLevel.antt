-- ===== src/Tiered/DiskLevel.antt =====
-- `DiskCache` as a level of the cache.
use xzcccc_smart_media.Base.{ℕ, refl, true, String, some, arith}
use xzcccc_smart_media.Dict.{Dict}
use xzcccc_smart_media.Dict
use xzcccc_smart_media.Tiered.Level.{Level, IsLevel}
use xzcccc_smart_media.Dict.{IsDict, IsDict-put, IsDict-remove}
use xzcccc_smart_media.Base.{Bool-cases, Option, Option-cases, inl, inr}
use xzcccc_smart_media.Tiered.Disk.{
  read_row, row_expired, serialize, new_row, DiskRow, Codec, IsCodec, disk_get, disk_set,
  disk_delete, disk_clear, DiskHolds, disk_get_sound, disk_get_keeps, disk_set_lem,
  disk_delete_sound,
}

module _ {D V : Type 0} (codec : Codec D V) (default_ttl : ℕ) where
  -- The calls of a disk whose statements succeed; what `set` returns is not read.
  abbrev pub disk_level : Level (Dict (DiskRow D)) V
  disk_level = record {
    get = disk_get codec true;
    set = λ now key value ttl rows. some (disk_set codec true default_ttl now key value ttl rows).0;
    delete = disk_delete codec true;
    clear = disk_clear codec true;
  }

  pub disk_cleared :
      (j : String) (rows : Dict (DiskRow D)) (v : V)
      → ¬ DiskHolds codec j v (disk_clear codec true rows).0
  unfolding disk_clear Dict.get
  disk_cleared j rows v (row, found, back) = ground arith

  pub disk_get-IsDict :
      (now : ℕ) (k : String) (rows : Dict (DiskRow D))
      → IsDict rows
      → IsDict (disk_get codec true now k rows).0
  unfolding disk_get read_row
  disk_get-IsDict now k rows u = elim (Option-cases (Dict.get k rows)) [
    | inl miss ↦ rw (miss, disk_get) u
    | inr (row, found) ↦ elim (Bool-cases (row_expired codec now row)) [
      | inl over ↦ rw (found, disk_get) (rw over (IsDict-remove k rows u))
      | inr live ↦ rw (found, disk_get) (rw live (IsDict-put k _ rows u))
    ]
  ]

  pub disk_set-IsDict :
      (now : ℕ) (k : String) (w : V) (ttl : Option ℕ) (rows : Dict (DiskRow D))
      → IsDict rows
      → IsDict (disk_set codec true default_ttl now k w ttl rows).0
  unfolding disk_set
  disk_set-IsDict now k w ttl rows u = elim (Option-cases (serialize codec w)) [
    | inl bad ↦ rw (bad, disk_set) u
    | inr ((d, t), e) ↦
        rw (e, disk_set) (IsDict-put k (new_row codec default_ttl now ttl d t) rows u)
  ]

  pub disk_delete-IsDict :
      (k : String) (rows : Dict (DiskRow D))
      → IsDict rows
      → IsDict (disk_delete codec true k rows).0
  unfolding disk_delete
  disk_delete-IsDict k rows u = IsDict-remove k rows u

  pub disk_clear-IsDict :
      (rows : Dict (DiskRow D)) → IsDict rows → IsDict (disk_clear codec true rows).0
  unfolding disk_clear
  disk_clear-IsDict rows u = tt

  -- A disk cache whose statements succeed, and whose bytes are read back, keeps the promise of a level.
  unfoldable pub disk-IsLevel : IsCodec codec → IsLevel (Dict (DiskRow D)) V disk_level
  disk-IsLevel laws = record {
    IsGood = IsDict;
    Holds = DiskHolds codec;
    get_good = disk_get-IsDict;
    get_sound = disk_get_sound codec;
    get_keeps = disk_get_keeps codec;
    set_lem = λ now k w ttl rows good.
        let (sound, self) = disk_set_lem codec laws default_ttl now k w ttl rows in
        (
          (disk_set codec true default_ttl now k w ttl rows).0,
          refl,
          disk_set-IsDict now k w ttl rows good,
          sound,
          self,
        );
    delete_good = disk_delete-IsDict;
    delete_sound = λ k j rows v good. disk_delete_sound codec k j rows v;
    clear_good = disk_clear-IsDict;
    clear_sound = disk_cleared;
  }
