-- ===== src/Tiered/Disk.antt =====
-- `DiskCache` of app/services/disk_cache.py: the table `cache_entries` by its primary key. `up` tells
-- whether the statements of a call succeed: every method catches their exceptions.
use xzcccc_smart_media.Base.{
  ℕ, ◌+◌, ◌≡◌, [], Bool, true, false, not, ltb, if◌then◌else◌, String, str_eq, eq_iff, Option, none,
  some, keep, length, seconds, arith, Bool-cases, Option-cases, inl, inr,
}
use xzcccc_smart_media.Dict
use xzcccc_smart_media.Dict.{Dict, get-put, get-remove}

pub data ValueType : Type 0 where
  json : ValueType
  pickle : ValueType

pub record DiskRow (D : Type 0) : Type 0 where
  pub row_value : D
  pub value_type : ValueType
  pub created_at : ℕ
  pub expires_at : Option ℕ
  pub access_count : ℕ
  pub last_access : ℕ

-- `json.dumps` and `pickle.dumps` with their inverses: bytes D for values V, none where they raise.
pub record Codec (D V : Type 0) : Type 0 where
  pub json_dumps : V → Option D
  pub pickle_dumps : V → Option D
  pub json_loads : D → Option V
  pub pickle_loads : D → Option V

-- Bytes are read back as the value they were made from.
pub record IsCodec {D V : Type 0} (codec : Codec D V) : Type 0 where
  pub total : (v : V) → codec.json_dumps v ≡ none → (d : D) × (codec.pickle_dumps v ≡ some d)
  pub json_back : (v : V) (d : D) → codec.json_dumps v ≡ some d → codec.json_loads d ≡ some v
  pub pickle_back : (v : V) (d : D) → codec.pickle_dumps v ≡ some d → codec.pickle_loads d ≡ some v

module _ {D V : Type 0} (codec : Codec D V) where
  unfoldable pub serialize : V → Option (D × ValueType)
  serialize value = elim (codec.json_dumps value) [
    | some d ↦ some (d, json)
    | none ↦ elim (codec.pickle_dumps value) [ some d ↦ some (d, pickle) | none ↦ none ]
  ]

  unfoldable pub deserialize : D → ValueType → Option V
  deserialize d json = codec.json_loads d
  deserialize d pickle = codec.pickle_loads d

  serialize-deserialize :
      IsCodec codec
      → (v : V)
      → (d : D) × (t : ValueType) × (serialize v ≡ some (d, t)) × (deserialize d t ≡ some v)
  unfolding serialize deserialize
  serialize-deserialize laws v = elim (Option-cases (codec.json_dumps v)) [
    | inr (d, e) ↦ (d, json, ground arith, laws.json_back v d e)
    | inl none_left ↦
        let (d, e) = laws.total v none_left in (d, pickle, ground arith, laws.pickle_back v d e)
  ]

  -- `expires_at is not None and now > expires_at`
  unfoldable pub row_expired : ℕ → DiskRow D → Bool
  row_expired now row = elim row.expires_at [ none ↦ false | some t ↦ ltb t now ]

  unfoldable pub read_row : ℕ → String → DiskRow D → Dict (DiskRow D) → Dict (DiskRow D) × Option V
  unfolding row_expired
  read_row now key row rows = if row_expired now row then (Dict.remove key rows, none) else (
    Dict.put key (record row { access_count = row.access_count + 1; last_access = now }) rows,
    deserialize row.row_value row.value_type,
  )

  unfoldable pub disk_get : Bool → ℕ → String → Dict (DiskRow D) → Dict (DiskRow D) × Option V
  disk_get false now key rows = (rows, none)
  disk_get true now key rows = elim (Dict.get key rows) [
    | none ↦ (rows, none)
    | some row ↦ read_row now key row rows
  ]

  -- The end of a row's life: its own time to live if it is positive, or else the default one.
  unfoldable pub expiry : ℕ → ℕ → Option ℕ → Option ℕ
  expiry default_ttl now none = if ltb 0 default_ttl then some (now + seconds default_ttl) else none
  expiry default_ttl now (some ttl) =
      if ltb 0 ttl
      then some (now + seconds ttl)
      else if ltb 0 default_ttl
      then some (now + seconds default_ttl)
      else none

  abbrev pub new_row : ℕ → ℕ → Option ℕ → D → ValueType → DiskRow D
  new_row default_ttl now ttl d t = record {
    row_value = d;
    value_type = t;
    created_at = now;
    expires_at = expiry default_ttl now ttl;
    access_count = 0;
    last_access = now;
  }

  unfoldable pub disk_set :
      Bool → ℕ → ℕ → String → V → Option ℕ → Dict (DiskRow D) → Dict (DiskRow D) × Bool
  disk_set up default_ttl now key value ttl rows = elim (serialize value) [
    | none ↦ (rows, false)
    | some (d, t) ↦
        if up then (Dict.put key (new_row default_ttl now ttl d t) rows, true) else (rows, false)
  ]

  unfoldable pub disk_delete : Bool → String → Dict (DiskRow D) → Dict (DiskRow D) × Bool
  disk_delete up key rows =
      if up then (Dict.remove key rows, Dict.contains key rows) else (rows, false)

  unfoldable pub disk_clear : Bool → Dict (DiskRow D) → Dict (DiskRow D) × Bool
  disk_clear up rows = if up then ([], true) else (rows, false)

  unfoldable pub disk_cleanup_expired : Bool → ℕ → Dict (DiskRow D) → Dict (DiskRow D) × ℕ
  unfolding row_expired
  disk_cleanup_expired up now rows =
      if up
      then (
        keep (λ item. not (row_expired now item.1)) rows,
        length (keep (λ item. row_expired now item.1) rows),
      )
      else (rows, 0)

  -- `SELECT 1 … WHERE key = ? AND (expires_at IS NULL OR expires_at > ?)`
  unfoldable pub disk_exists : Bool → ℕ → String → Dict (DiskRow D) → Bool
  disk_exists false now key rows = false
  disk_exists true now key rows = elim (Dict.get key rows) [
    | none ↦ false
    | some row ↦ elim row.expires_at [ none ↦ true | some t ↦ ltb now t ]
  ]

  -- A row of the key that is read as the value, expired or not.
  abbrev pub DiskHolds : String → V → Dict (DiskRow D) → Type 0
  DiskHolds k v rows =
      (row : DiskRow D) × (Dict.get k rows ≡ some row)
      × (deserialize row.row_value row.value_type ≡ some v)

  pub disk_get_sound :
      (now : ℕ) (k : String) (rows : Dict (DiskRow D)) (v : V)
      → (disk_get true now k rows).1 ≡ some v
      → DiskHolds k v rows
  unfolding disk_get read_row
  disk_get_sound now k rows v e = elim (Option-cases (Dict.get k rows)) [
    | inl miss ↦ absurd (ground arith)
    | inr (row, found) ↦ (row, found, ground arith)
  ]

  -- A look-up changes no row but for the counters, and drops one that has expired.
  pub disk_get_keeps :
      (now : ℕ) (k j : String) (rows : Dict (DiskRow D)) (v : V)
      → DiskHolds j v (disk_get true now k rows).0
      → DiskHolds j v rows
  unfolding disk_get read_row
  disk_get_keeps now k j rows v (row, found, back) = elim (Option-cases (Dict.get k rows)) [
    | inl miss ↦ let q : Dict.get j rows ≡ some row = rw (miss, disk_get) at found in (row, q, back)
    | inr (old, there) ↦ elim (Bool-cases (row_expired now old)) [
      | inl over ↦
          let q : Dict.get j (Dict.remove k rows) ≡ some row = ground arith in
          (row, ground (arith, get-remove k j rows), back)
      | inr live ↦
          let touched : DiskRow D = record old {
            access_count = old.access_count + 1;
            last_access = now;
          } in
          let q : Dict.get j (Dict.put k touched rows) ≡ some row = ground arith in
          elim (Bool-cases (str_eq k j)) [
            | inl same ↦ (old, ground (arith, eq_iff k j), ground (arith, get-put k j touched rows))
            | inr other ↦ (row, ground (arith, get-put k j touched rows), back)
          ]
    ]
  ]

  expiry_live :
      (default_ttl now : ℕ) (ttl : Option ℕ) (d : D) (t : ValueType)
      → row_expired now (new_row default_ttl now ttl d t) ≡ false
  unfolding row_expired expiry
  expiry_live default_ttl now none d t = ground arith
  expiry_live default_ttl now (some x) d t = ground arith

  pub disk_set_lem :
      IsCodec codec
      → (default_ttl now : ℕ) (k : String) (w : V) (ttl : Option ℕ) (rows : Dict (DiskRow D))
      → ((j : String) (v : V)
          → DiskHolds j v (disk_set true default_ttl now k w ttl rows).0
          → if str_eq k j then v ≡ w else DiskHolds j v rows)
        × ((disk_get true now k (disk_set true default_ttl now k w ttl rows).0).1 ≡ some w)
  unfolding disk_set disk_get read_row
  disk_set_lem laws default_ttl now k w ttl rows =
      let (d, t, e, back) = serialize-deserialize laws w in
      let new = new_row default_ttl now ttl d t in
      rw (e, disk_set)
        (
          λ j v (row, found, read). elim (Bool-cases (str_eq k j)) [
            | inl same ↦ rw same (ground (arith, get-put k j new rows))
            | inr other ↦ rw other (row, ground (arith, get-put k j new rows), read)
          ],
          ground
              (arith, get-put k k new rows, eq_iff k k, expiry_live default_ttl now ttl d t, back),
        )

  pub disk_delete_sound :
      (k j : String) (rows : Dict (DiskRow D)) (v : V)
      → DiskHolds j v (disk_delete true k rows).0
      → (str_eq k j ≡ false) × DiskHolds j v rows
  unfolding disk_delete
  disk_delete_sound k j rows v (row, found, back) =
      let both : (str_eq k j ≡ false) × (Dict.get j rows ≡ some row) =
        ground (arith, get-remove k j rows) in
      (both.0, (row, both.1, back))
