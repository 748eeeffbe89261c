-- ===== src/WriteQueue/Merge.antt =====
-- What becomes of a second write with the merge key of a first one.
use xzcccc_smart_media.Base.{
  ℕ, ◌+◌, ◌≤◌, ◌≡◌, refl, String, List, [], ◌∷◌, true, false, none, some, leb, ◌==◌, length, All,
  arith, eq_iff, ap, ◌∙◌,
}
use xzcccc_smart_media.Dict
use xzcccc_smart_media.Dict.{Dict, get-put}
use xzcccc_smart_media.WriteQueue.Queue.{
  WriteOperation, WritePriority, WriteTask, WriteQueue, Submitted, accepted, queue_full,
  merge_fields, merge_into, push, submit, priority_value,
}

module _ {V : Type 0} where
  -- Every task of the queue has a sequence number that was given out.
  abbrev pub IsNumbered : WriteQueue V → Type 0
  IsNumbered q = All (λ t. t.sequence ≤ q.last_sequence) q.queue

  merge_into-absent :
      (m : ℕ) (new : Dict V) (ts : List (WriteTask V))
      → All (λ t. t.sequence ≤ m) ts
      → merge_into (m + 1) new ts ≡ ts
  unfolding merge_into
  merge_into-absent m new [] all = refl
  merge_into-absent m new (t ∷ ts) all =
      let other : (t.sequence == m + 1) ≡ false = ground (arith, all.0) in
      rw (other, merge_into-absent m new ts all.1) refl

  merge_into_here :
      (m : ℕ) (new : Dict V) (t : WriteTask V) (ts : List (WriteTask V))
      → t.sequence ≡ m
      → merge_into m new (t ∷ ts)
        ≡ record t { fields = merge_fields t.fields new; retry_count = 0 } ∷ merge_into m new ts
  unfolding merge_into
  merge_into_here m new t ts e =
      let same : (t.sequence == m) ≡ true = ground arith in simp same refl

  push_full :
      (t : WriteTask V) (q : WriteQueue V)
      → leb q.max_queue_size (length q.queue) ≡ true
      → push t q ≡ (q, queue_full)
  unfolding push
  push_full t q full = simp full refl

  push_room :
      (t : WriteTask V) (q : WriteQueue V)
      → leb q.max_queue_size (length q.queue) ≡ false
      → ((push t q).1 ≡ accepted t.task_id)
        × ((push t q).0.queue ≡ t ∷ q.queue)
        × ((push t q).0.running ≡ q.running)
        × ((push t q).0.merge_cache ≡ q.merge_cache)
        × ((push t q).0.last_sequence ≡ q.last_sequence)
  unfolding push
  push_room t q room =
      (simp room refl, simp room refl, simp room refl, simp room refl, simp room refl)

  -- The task that `submit` makes.
  abbrev new_task :
      WriteOperation → String → Dict V → WritePriority → String → WriteQueue V → WriteTask V
  new_task operation model_class fields priority id q = record {
    urgency = priority_value priority;
    sequence = q.last_sequence + 1;
    operation = operation;
    model_class = model_class;
    fields = fields;
    retry_count = 0;
    max_retries = 3;
    task_id = id;
  }

  -- The queue that `submit` pushes to under a new merge key.
  abbrev cached : String → String → WriteQueue V → WriteQueue V
  cached key id q = record q {
    last_sequence = q.last_sequence + 1;
    merge_cache = Dict.put key (q.last_sequence + 1, id) q.merge_cache;
  }

  submit_new :
      (operation : WriteOperation) (model_class : String) (fields : Dict V)
      (priority : WritePriority) (key id : String) (q : WriteQueue V)
      → q.running ≡ true
      → Dict.get key q.merge_cache ≡ none
      → submit operation model_class fields priority (some key) id q
        ≡ push (new_task operation model_class fields priority id q) (cached key id q)
  unfolding submit
  submit_new operation model_class fields priority key id q on unused =
      rw (unused, submit) (simp on refl)

  submit_old :
      (operation : WriteOperation) (model_class : String) (fields : Dict V)
      (priority : WritePriority) (key id old_id : String) (old : ℕ) (q : WriteQueue V)
      → q.running ≡ true
      → Dict.get key q.merge_cache ≡ some (old, old_id)
      → let r = submit operation model_class fields priority (some key) id q in
        (r.1 ≡ accepted old_id) × (r.0.queue ≡ merge_into old fields q.queue)
  unfolding submit
  submit_old operation model_class fields priority key id old_id old q on used =
      (rw (used, submit) (simp on refl), rw (used, submit) (simp on refl))

  get-cached :
      (key id : String) (q : WriteQueue V)
      → Dict.get key (cached key id q).merge_cache ≡ some (q.last_sequence + 1, id)
  get-cached key id q =
      get-put key key (q.last_sequence + 1, id) q.merge_cache ∙ rw ((eq_iff key key).1 refl) refl

  module _ (operation later : WriteOperation) (model_class later_class : String)
      (fields more : Dict V) (priority later_priority : WritePriority) (key id later_id : String)
      (q : WriteQueue V) where
    -- A write with a merge key, and a second one with the same key right after it.
    abbrev pub first : WriteQueue V × Submitted
    first = submit operation model_class fields priority (some key) id q

    abbrev pub second : WriteQueue V × Submitted
    second = submit later later_class more later_priority (some key) later_id first.0

    -- A full queue that runs refuses a first write with a merge key that is not in use. But a second
    -- write with that key right after it is accepted, under the id of the refused one, and the queue
    -- holds the same tasks as before: the write is lost.
    pub full_then_lost :
        q.running ≡ true
        → Dict.get key q.merge_cache ≡ none
        → leb q.max_queue_size (length q.queue) ≡ true
        → IsNumbered q
        → (first.1 ≡ queue_full) × (second.1 ≡ accepted id) × (second.0.queue ≡ q.queue)
    full_then_lost on unused full numbered =
        let refused =
          submit_new operation model_class fields priority key id q on unused
          ∙ push_full (new_task operation model_class fields priority id q) (cached key id q)
              full in
        let (answer, queue) =
          submit_old later later_class more later_priority key later_id id (q.last_sequence + 1)
            (cached key id q) on (get-cached key id q) in
        rw refused (refl, answer, queue ∙ merge_into-absent q.last_sequence more q.queue numbered)

    -- While the queue runs and has room, two writes in a row with a merge key that is not in use become
    -- one task of the queue, which has the fields of both, the second's over the first's; both are
    -- accepted under its id.
    pub merged :
        q.running ≡ true
        → Dict.get key q.merge_cache ≡ none
        → leb q.max_queue_size (length q.queue) ≡ false
        → IsNumbered q
        → (t : WriteTask V) × (second.0.queue ≡ t ∷ q.queue)
          × (t.fields ≡ merge_fields fields more)
          × (t.task_id ≡ id)
          × (first.1 ≡ accepted id)
          × (second.1 ≡ accepted id)
    merged on unused room numbered =
        let t = new_task operation model_class fields priority id q in
        let pushed = submit_new operation model_class fields priority key id q on unused in
        let (ok, queue, runs, cache, n) = push_room t (cached key id q) room in
        let q1 = (push t (cached key id q)).0 in
        let (answer, queue2) =
          submit_old later later_class more later_priority key later_id id (q.last_sequence + 1) q1
            (runs ∙ on) (ap (Dict.get key) cache ∙ get-cached key id q) in
        let here : merge_into (q.last_sequence + 1) more (t ∷ q.queue)
            ≡ record t { fields = merge_fields fields more } ∷ q.queue =
          merge_into_here (q.last_sequence + 1) more t q.queue refl
          ∙ ap (λ ts. record t { fields = merge_fields fields more } ∷ ts)
              (merge_into-absent q.last_sequence more q.queue numbered) in
        rw pushed (
          record t { fields = merge_fields fields more },
          queue2 ∙ ap (merge_into (q.last_sequence + 1) more) queue ∙ here,
          refl,
          refl,
          ok,
          answer,
        )
