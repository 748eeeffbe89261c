-- ===== src/Tiered/DiskBulk.antt =====
-- The bulk operations of `DiskCache`, against the single ones.
use xzcccc_smart_media.Base.{
  ℕ, ◌+◌, ◌≡◌, refl, List, [], ◌∷◌, Bool, true, false, not, ◌&&◌, if◌then◌else◌, String, str_eq,
  eq_iff, Option, none, some, any, keep, arith, Bool-cases, Option-cases, inl, inr,
}
use xzcccc_smart_media.Dict
use xzcccc_smart_media.Dict.{Dict, IsDict}
use xzcccc_smart_media.Tiered.Disk.{
  DiskRow, Codec, serialize, deserialize, row_expired, read_row, disk_get, new_row,
}

module _ {D V : Type 0} (codec : Codec D V) where
  -- The rows of the query `WHERE key IN (…)` that have not expired, as far as their bytes are read.
  unfoldable pub read_live : ℕ → List String → Dict (DiskRow D) → Dict V
  read_live now keys [] = []
  read_live now keys ((k, row) ∷ rows) =
      let rest = read_live now keys rows in
      if any (str_eq k) keys && not (row_expired codec now row)
      then elim (deserialize codec row.row_value row.value_type) [
        | some v ↦ (k, v) ∷ rest
        | none ↦ rest
      ]
      else rest

  -- Expired rows of the keys are deleted.
  unfoldable pub disk_get_many :
      Bool → ℕ → List String → Dict (DiskRow D) → Dict (DiskRow D) × Dict V
  disk_get_many up now [] rows = (rows, [])
  disk_get_many false now (key ∷ keys) rows = (rows, [])
  disk_get_many true now (key ∷ keys) rows = (
    keep (λ item. not (any (str_eq item.0) (key ∷ keys) && row_expired codec now item.1)) rows,
    read_live now (key ∷ keys) rows,
  )

  -- An item that cannot be serialised is left out, and not counted.
  unfoldable pub insert_rows : ℕ → ℕ → Option ℕ → Dict V → Dict (DiskRow D) → Dict (DiskRow D) × ℕ
  insert_rows default_ttl now ttl [] rows = (rows, 0)
  insert_rows default_ttl now ttl ((key, value) ∷ items) rows = elim (serialize codec value) [
    | none ↦ insert_rows default_ttl now ttl items rows
    | some (d, t) ↦
        let (rows', done) =
          insert_rows default_ttl now ttl items
            (Dict.put key (new_row codec default_ttl now ttl d t) rows) in
        (rows', done + 1)
  ]

  unfoldable pub disk_set_many :
      Bool → ℕ → ℕ → Dict V → Option ℕ → Dict (DiskRow D) → Dict (DiskRow D) × ℕ
  disk_set_many up default_ttl now items ttl rows =
      if up then insert_rows default_ttl now ttl items rows else (rows, 0)

  read_live-absent :
      (now : ℕ) (keys : List String) (k : String) (rows : Dict (DiskRow D))
      → Dict.contains k rows ≡ false
      → Dict.get k (read_live now keys rows) ≡ none
  unfolding read_live Dict.get
  read_live-absent now keys k [] h = refl
  read_live-absent now keys k ((j, row) ∷ rows) h =
      elim (Option-cases (deserialize codec row.row_value row.value_type)) [
        | inl bad ↦ ground (arith, read_live-absent now keys k rows, bad)
        | inr (v, good) ↦ ground (arith, read_live-absent now keys k rows, good)
      ]

  single_lem :
      (now : ℕ) (k j : String) (row : DiskRow D) (rows : Dict (DiskRow D))
      → (disk_get codec true now k ((j, row) ∷ rows)).1 ≡ (
          if str_eq j k
          then (if row_expired codec now row
              then none
              else deserialize codec row.row_value row.value_type)
          else (disk_get codec true now k rows).1)
  unfolding disk_get read_row Dict.get
  single_lem now k j row rows = elim (Bool-cases (str_eq j k)) [
    | inl same ↦ ground arith
    | inr other ↦ elim (Option-cases (Dict.get k rows)) [
      | inl miss ↦ ground arith
      | inr (r, found) ↦ ground arith
    ]
  ]

  read_live-single :
      (now : ℕ) (keys : List String) (k : String) (rows : Dict (DiskRow D))
      → IsDict rows
      → any (str_eq k) keys ≡ true
      → Dict.get k (read_live now keys rows) ≡ (disk_get codec true now k rows).1
  unfolding read_live Dict.get
  read_live-single now keys k [] u h = unfold disk_get in refl
  read_live-single now keys k ((j, row) ∷ rows) (fresh, u) h =
      let rest = read_live-single now keys k rows u h in
      let absent = read_live-absent now keys j rows fresh in
      let one = single_lem now k j row rows in
      elim (Bool-cases (str_eq j k)) [
        | inl same ↦
            let p : j ≡ k = (eq_iff j k).0 same in
            let wanted : any (str_eq j) keys ≡ true = rw p h in
            let gone : Dict.get k (read_live now keys rows) ≡ none = rw p at absent in
            elim (Option-cases (deserialize codec row.row_value row.value_type)) [
              | inl bad ↦ ground (arith, wanted, gone, one, bad)
              | inr (v, good) ↦ ground (arith, wanted, gone, one, good)
            ]
        | inr other ↦ elim (Option-cases (deserialize codec row.row_value row.value_type)) [
          | inl bad ↦ ground (arith, rest, one, bad)
          | inr (v, good) ↦ ground (arith, rest, one, good)
        ]
      ]

  -- The bulk look-up finds of each of its keys what the single look-up finds at the same time: the
  -- value of a row that has not expired and whose bytes are read, and nothing otherwise.
  pub get-disk_get_many :
      (up : Bool) (now : ℕ) (keys : List String) (k : String) (rows : Dict (DiskRow D))
      → IsDict rows
      → any (str_eq k) keys ≡ true
      → Dict.get k (disk_get_many up now keys rows).1 ≡ (disk_get codec up now k rows).1
  unfolding disk_get_many any
  get-disk_get_many up now [] k rows u h = absurd (ground arith)
  get-disk_get_many false now (key ∷ keys) k rows u h = unfold disk_get Dict.get in refl
  get-disk_get_many true now (key ∷ keys) k rows u h = read_live-single now (key ∷ keys) k rows u h
