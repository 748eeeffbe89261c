-- ===== src/Tiered/Cache.antt =====
-- `TieredCache` of app/services/tiered_cache.py over any three levels, each of which may be switched
-- off (then it is none). A value is never None here, as `get` cannot tell None from a missing key.
use xzcccc_smart_media.Base.{
  ℕ, List, [], ◌∷◌, ◌++◌, Bool, true, false, ◌&&◌, ◌||◌, if◌then◌else◌, String, Option, none, some,
  is_some, any, not,
}
use xzcccc_smart_media.Tiered.Level.{Level}

-- A write that waits for the worker: the key, the value and the time to live.
pub record QueuedWrite (V : Type 0) : Type 0 where
  pub key : String
  pub queued_value : V
  pub queued_ttl : Option ℕ

pub record TieredCache (S1 S2 S3 V : Type 0) : Type 0 where
  pub l1 : Option S1
  pub l2 : Option S2
  pub l3 : Option S3
  pub write_queue : List (QueuedWrite V)

-- What `get` comes to: a value or None, or the exception of a write to an upper level.
pub data Found (V : Type 0) : Type 0 where
  fetched : Option V → Found V
  raised : Found V

-- A call on a level that may be switched off.
module _ {S V : Type 0} (o : Level S V) where
  unfoldable pub level_get : ℕ → String → Option S → Option S × Option V
  level_get now key none = (none, none)
  level_get now key (some s) = let (s', v) = o.get now key s in (some s', v)

  -- None where the level raises
  unfoldable pub level_set : ℕ → String → V → Option ℕ → Option S → Option (Option S)
  level_set now key value ttl none = some none
  level_set now key value ttl (some s) = elim (o.set now key value ttl s) [
    | some s' ↦ some (some s')
    | none ↦ none
  ]

  -- A write whose exception is caught: the level afterwards, and whether it went through.
  unfoldable pub try_set : ℕ → String → V → Option ℕ → Option S → Option S × Bool
  unfolding level_set
  try_set now key value ttl level = elim (level_set now key value ttl level) [
    | some level' ↦ (level', true)
    | none ↦ (level, false)
  ]

  unfoldable pub level_delete : String → Option S → Option S × List Bool
  level_delete key none = (none, [])
  level_delete key (some s) = let (s', result) = o.delete key s in (some s', result ∷ [])

  unfoldable pub level_clear : Option S → Option S × List Bool
  level_clear none = (none, [])
  level_clear (some s) = let (s', result) = o.clear s in (some s', result ∷ [])

module _ {S1 S2 S3 V : Type 0} (o1 : Level S1 V) (o2 : Level S2 V) (o3 : Level S3 V) where
  -- `await self._l1_cache.set(key, value)`, then what is done next
  unfoldable pub fill_l1 : ℕ → String → V → TieredCache S1 S2 S3 V → Option (TieredCache S1 S2 S3 V)
  unfolding level_set
  fill_l1 now key value c = elim (level_set o1 now key value none c.l1) [
    | some l1 ↦ some (record c { l1 = l1 })
    | none ↦ none
  ]

  unfoldable pub fill_l2 : ℕ → String → V → TieredCache S1 S2 S3 V → Option (TieredCache S1 S2 S3 V)
  unfolding level_set
  fill_l2 now key value c = elim (level_set o2 now key value none c.l2) [
    | some l2 ↦ some (record c { l2 = l2 })
    | none ↦ none
  ]

  unfoldable pub look_l3 : ℕ → String → TieredCache S1 S2 S3 V → TieredCache S1 S2 S3 V × Found V
  unfolding level_get fill_l1 fill_l2
  look_l3 now key c =
      let (l3, value) = level_get o3 now key c.l3 in
      let c' = record c { l3 = l3 } in
      elim value [
        | none ↦ (c', fetched none)
        | some v ↦ elim (fill_l1 now key v c') [
          | none ↦ (c', raised)
          | some c1 ↦ elim (fill_l2 now key v c1) [
            | none ↦ (c1, raised)
            | some c2 ↦ (c2, fetched (some v))
          ]
        ]
      ]

  unfoldable pub look_l2 : ℕ → String → TieredCache S1 S2 S3 V → TieredCache S1 S2 S3 V × Found V
  unfolding level_get fill_l1
  look_l2 now key c =
      let (l2, value) = level_get o2 now key c.l2 in
      let c' = record c { l2 = l2 } in
      elim value [
        | none ↦ look_l3 now key c'
        | some v ↦ elim (fill_l1 now key v c') [
          | none ↦ (c', raised)
          | some c1 ↦ (c1, fetched (some v))
        ]
      ]

  unfoldable pub get : ℕ → String → TieredCache S1 S2 S3 V → TieredCache S1 S2 S3 V × Found V
  unfolding level_get
  get now key c =
      let (l1, value) = level_get o1 now key c.l1 in
      let c' = record c { l1 = l1 } in
      elim value [ none ↦ look_l2 now key c' | some v ↦ (c', fetched (some v)) ]

  -- The queue has no bound, so `put_nowait` does not fail.
  unfoldable pub set :
      ℕ → String → V → Option ℕ → Bool → TieredCache S1 S2 S3 V → TieredCache S1 S2 S3 V × Bool
  unfolding try_set
  set now key value ttl persist c =
      let (l1, success) = try_set o1 now key value ttl c.l1 in
      let write : QueuedWrite V = record { key = key; queued_value = value; queued_ttl = ttl } in
      let queue =
        if persist && (is_some c.l2 || is_some c.l3)
        then c.write_queue ++ write ∷ []
        else c.write_queue in
      (record c { l1 = l1; write_queue = queue }, success)

  -- One round of `_async_write_worker`
  unfoldable pub apply_write : ℕ → QueuedWrite V → TieredCache S1 S2 S3 V → TieredCache S1 S2 S3 V
  unfolding try_set
  apply_write now w c = record c {
    l2 = (try_set o2 now w.key w.queued_value w.queued_ttl c.l2).0;
    l3 = (try_set o3 now w.key w.queued_value w.queued_ttl c.l3).0;
  }

  -- The worker until the queue is empty.
  unfoldable pub drain_queue :
      ℕ → List (QueuedWrite V) → TieredCache S1 S2 S3 V → TieredCache S1 S2 S3 V
  drain_queue now [] c = record c { write_queue = [] }
  drain_queue now (w ∷ rest) c = drain_queue now rest (apply_write now w c)

  abbrev pub drain : ℕ → TieredCache S1 S2 S3 V → TieredCache S1 S2 S3 V
  drain now c = drain_queue now c.write_queue c

  unfoldable pub delete : String → TieredCache S1 S2 S3 V → TieredCache S1 S2 S3 V × Bool
  unfolding level_delete
  delete key c =
      let (l1, r1) = level_delete o1 key c.l1 in
      let (l2, r2) = level_delete o2 key c.l2 in
      let (l3, r3) = level_delete o3 key c.l3 in
      (record c { l1 = l1; l2 = l2; l3 = l3 }, any (λ r. r) (r1 ++ r2 ++ r3))

  -- `all(results)`
  unfoldable pub clear : TieredCache S1 S2 S3 V → TieredCache S1 S2 S3 V × Bool
  unfolding level_clear
  clear c =
      let (l1, r1) = level_clear o1 c.l1 in
      let (l2, r2) = level_clear o2 c.l2 in
      let (l3, r3) = level_clear o3 c.l3 in
      (record c { l1 = l1; l2 = l2; l3 = l3 }, not (any not (r1 ++ r2 ++ r3)))

  unfoldable pub get_or_make :
      ℕ → String → V → Option ℕ → Bool → TieredCache S1 S2 S3 V → TieredCache S1 S2 S3 V × Found V
  get_or_make now key made ttl persist c =
      let (c', found) = get now key c in
      elim found [
        | fetched none ↦ ((set now key made ttl persist c').0, fetched (some made))
        | other ↦ (c', other)
      ]
