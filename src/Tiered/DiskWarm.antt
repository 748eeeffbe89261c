-- ===== src/Tiered/DiskWarm.antt =====
-- The bulk look-up of `DiskCache` as the one of a level that is warmed up from.
use xzcccc_smart_media.Base.{
  ℕ, ◌≡◌, List, [], ◌∷◌, Bool, true, false, not, ◌&&◌, String, str_eq, eq_iff, some, any, keep, All,
  arith, Bool-cases, Option-cases, inl, inr,
}
use xzcccc_smart_media.Dict
use xzcccc_smart_media.Dict.{Dict, IsDict, IsDict-keep}
use xzcccc_smart_media.Tiered.Disk.{DiskRow, Codec, IsCodec, deserialize, row_expired, DiskHolds}
use xzcccc_smart_media.Tiered.DiskBulk.{read_live, disk_get_many}
use xzcccc_smart_media.Tiered.DiskLevel.{disk_level, disk-IsLevel}
use xzcccc_smart_media.Tiered.Warmup.{IsBulk}

-- What is found in a selection of the entries is found among all of them.
get-keep-some :
    {E : Type 0} (p : String × E → Bool) (j : String) (d : Dict E) (e : E)
    → IsDict d
    → Dict.get j (keep p d) ≡ some e
    → Dict.get j d ≡ some e
unfolding Dict.get keep
get-keep-some p j [] e u h = h
get-keep-some p j ((i, w) ∷ d) e (fresh, u) h = elim (Bool-cases (p (i, w))) [
  | inl kept ↦ ground (arith, get-keep-some p j d e u, eq_iff i j)
  | inr dropped ↦
      let h' : Dict.get j (keep p d) ≡ some e = rw dropped at h in
      let below = get-keep-some p j d e u h' in ground (arith, below, eq_iff i j)
]

module _ {D V : Type 0} (codec : Codec D V) where
  -- A row below another one is still found, as the keys differ.
  DiskHolds-below :
      (i j : String) (row : DiskRow D) (rows : Dict (DiskRow D)) (v : V)
      → Dict.contains i rows ≡ false
      → DiskHolds codec j v rows
      → DiskHolds codec j v ((i, row) ∷ rows)
  unfolding Dict.get
  DiskHolds-below i j row rows v fresh (r, found, back) = (r, ground (arith, eq_iff i j), back)

  All-below :
      (i : String) (row : DiskRow D) (rows : Dict (DiskRow D)) (items : Dict V)
      → Dict.contains i rows ≡ false
      → All (λ item. DiskHolds codec item.0 item.1 rows) items
      → All (λ item. DiskHolds codec item.0 item.1 ((i, row) ∷ rows)) items
  All-below i row rows [] fresh h = tt
  All-below i row rows ((j, v) ∷ items) fresh (here, h) =
      (DiskHolds-below i j row rows v fresh here, All-below i row rows items fresh h)

  read_live-All :
      (now : ℕ) (keys : List String) (rows : Dict (DiskRow D))
      → IsDict rows
      → All (λ item. DiskHolds codec item.0 item.1 rows) (read_live codec now keys rows)
  unfolding read_live
  read_live-All now keys [] u = tt
  read_live-All now keys ((k, row) ∷ rows) (fresh, u) =
      let rest =
        All-below k row rows (read_live codec now keys rows) fresh
          (read_live-All now keys rows u) in
      elim (Bool-cases (any (str_eq k) keys && not (row_expired codec now row))) [
        | inr out ↦ rw out rest
        | inl wanted ↦ elim (Option-cases (deserialize codec row.row_value row.value_type)) [
          | inl bad ↦ simp (wanted, bad) rest
          | inr (v, good) ↦
              let self : Dict.get k ((k, row) ∷ rows) ≡ some row =
                unfold Dict.get in ground (arith, eq_iff k k) in
              simp (wanted, good) ((row, self, good), rest)
        ]
      ]

  -- The bulk look-up of a disk gives only what its rows hold, and leaves no other rows behind.
  pub disk_get_many-IsBulk :
      (default_ttl : ℕ) (laws : IsCodec codec)
      → IsBulk
          (disk_level codec default_ttl)
          (disk-IsLevel codec default_ttl laws)
          (disk_get_many codec true)
  unfolding disk_get_many disk-IsLevel
  disk_get_many-IsBulk default_ttl laws now [] rows u = (u, λ j v h. h, tt)
  disk_get_many-IsBulk default_ttl laws now (key ∷ keys) rows u = (
    IsDict-keep (λ item. not (any (str_eq item.0) (key ∷ keys) && row_expired codec now item.1))
        rows u,
    λ j v (row, found, back). (row, get-keep-some _ j rows row u found, back),
    read_live-All now (key ∷ keys) rows u,
  )
