-- ===== src/Tiered/Revival.antt =====
-- A deletion while a write of the same key waits in the queue.
use xzcccc_smart_media.Base.{
  ℕ, ◌≡◌, [], ◌∷◌, String, Option, none, some, arith, Option-cases, inl, inr, eq_iff,
}
use xzcccc_smart_media.Tiered.Level.{Level, IsLevel}
use xzcccc_smart_media.Tiered.Cache.{
  QueuedWrite, fetched, level_get, level_set, try_set, level_delete, fill_l1, get, look_l2,
  apply_write, drain_queue, drain, delete,
}

module _ {S1 S2 S3 V : Type 0} (o1 : Level S1 V) (o2 : Level S2 V) (o3 : Level S3 V)
    (l1 : IsLevel S1 V o1) (l2 : IsLevel S2 V o2) where
  deleted_misses :
      (now : ℕ) (k : String) (s : S1) → l1.IsGood s → (o1.get now k (o1.delete k s).0).1 ≡ none
  deleted_misses now k s good = elim (Option-cases (o1.get now k (o1.delete k s).0).1) [
    | inl miss ↦ miss
    | inr (v, hit) ↦
        let gone = l1.delete_sound k k s v good (l1.get_sound now k (o1.delete k s).0 v hit) in
        absurd (ground (arith, eq_iff k k, gone.0))
  ]

  -- With a memory and a disk level that keep their promise, and one write in the queue: a deletion of the
  -- key of that write does not hold. When the worker has made the write, a look-up of the key at the same
  -- moment gives the value that was deleted.
  pub deleted_value_returns :
      (now : ℕ) (w : QueuedWrite V) (s1 : S1) (s2 : S2) (third : Option S3)
      → l1.IsGood s1
      → l2.IsGood s2
      → (get o1 o2 o3 now w.key (
          drain o1 o2 o3 now
            (delete o1 o2 o3 w.key
              (record { l1 = some s1; l2 = some s2; l3 = third; write_queue = w ∷ [] })).0)).1
        ≡ fetched (some w.queued_value)
  unfolding get look_l2 fill_l1 level_get level_set try_set delete level_delete drain_queue
      apply_write
  deleted_value_returns now w s1 s2 third good1 good2 =
      let k = w.key in
      let good1' = l1.get_good now k (o1.delete k s1).0 (l1.delete_good k s1 good1) in
      let (s2', e2, x2, y2, self) =
        l2.set_lem now k w.queued_value w.queued_ttl (o2.delete k s2).0
          (l2.delete_good k s2 good2) in
      let (s1', e1, good1'', keeps1, self1) =
        l1.set_lem now k w.queued_value none (o1.get now k (o1.delete k s1).0).0 good1' in
      ground (arith, deleted_misses now k s1 good1, e2, self, e1)
