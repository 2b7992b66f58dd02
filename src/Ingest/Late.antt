-- ===== src/Ingest/Late.antt =====
-- A file that arrives late, and a queue that is full.
use nimo_os_photos.Prelude.{
  ℕ, ◌≤◌, ◌≡◌, refl, ap, ◌∙◌, Bool, true, false, text, ltb, ◌+◌, lookup-insert, none, some, List,
  [], ◌∷◌, Text, text_Eq, text_eq_refl, text_mem, lookup, lookup-delete, length, Float64, arith,
}
use nimo_os_photos.ScanRoots.{is_in_snapshots_dir}
use nimo_os_photos.Tasks.{Task}
use nimo_os_photos.Ingest.{
  noted, resulted, done_task, IngestBatch, IngestTracker, Indexer, note_enqueue_with_batch,
  note_result_with_batch, on_idle, forget, release, send, queue_capacity, enqueue_with_batch,
  mark_and_reserve, submit_reserved,
}

module _ (f : Float64) where
  registered_batch :
      (now total : ℕ) (task_id id : Text) (t : IngestTracker)
      → t.has_reg ≡ true
      → lookup id (note_enqueue_with_batch f now task_id id total t).0.batches
        ≡ some (noted now task_id total (lookup id t.batches))
  unfolding note_enqueue_with_batch
  registered_batch now total task_id id t h =
      rw h (lookup-insert id id _ t.batches ∙ rw (text_eq_refl id) refl)

  note-has_reg :
      (now total : ℕ) (task_id id : Text) (t : IngestTracker)
      → t.has_reg ≡ true
      → (note_enqueue_with_batch f now task_id id total t).0.has_reg ≡ true
  unfolding note_enqueue_with_batch
  note-has_reg now total task_id id t h = rw h refl

  resulted_batch :
      (now : ℕ) (ok : Bool) (id : Text) (b : IngestBatch) (t : IngestTracker)
      → t.has_reg ≡ true
      → lookup id t.batches ≡ some b
      → lookup id (note_result_with_batch f now id ok t).0.batches
        ≡ some (resulted now t.idle_after ok b)
  unfolding note_result_with_batch
  resulted_batch now ok id b t h e =
      rw (h, e) (lookup-insert id id _ t.batches ∙ rw (text_eq_refl id) refl)

  idle_task :
      (id : Text) (b : IngestBatch) (t : IngestTracker)
      → lookup id t.batches ≡ some b
      → b.total ≤ b.current
      → (on_idle f id t).1 ≡ some (done_task f b)
  unfolding on_idle
  idle_task id b t e h = rw e (ground (arith, h))

  lost_result :
      (now : ℕ) (ok : Bool) (id : Text) (t : IngestTracker)
      → t.has_reg ≡ true
      → note_result_with_batch f now id ok (forget id t) ≡ (forget id t, none)
  unfolding note_result_with_batch forget
  lost_result now ok id t h = rw (h, lookup-delete id id t.batches, text_eq_refl id) refl

  gone : (id : Text) (t : IngestTracker) → lookup id (forget id t).batches ≡ none
  unfolding forget
  gone id t = rw (lookup-delete id id t.batches, text_eq_refl id) refl

  -- The task of a batch that has one file and one result.
  one_done :
      (now later idle total : ℕ) (task_id : Text) (ok : Bool)
      → total ≤ 1
      → let b = resulted later idle ok (noted now task_id total none) in
        (b.total ≡ 1) × (b.current ≡ 1)
  unfolding noted resulted
  one_done now later idle total task_id ok h = ground (arith, h)

  on_idle-has_reg :
      (id : Text) (b : IngestBatch) (t : IngestTracker)
      → t.has_reg ≡ true
      → lookup id t.batches ≡ some b
      → ltb b.current b.total ≡ false
      → ((on_idle f id t).0.has_reg ≡ true)
        × ((c : IngestBatch) × (lookup id (on_idle f id t).0.batches ≡ some c)
            × (c.enqueued ≡ b.enqueued))
  unfolding on_idle
  on_idle-has_reg id b t h e l =
      rw (e, l)
        (
          h,
          (
            record b { idle_timer = none },
            lookup-insert id id _ t.batches ∙ rw (text_eq_refl id) refl,
            refl,
          ),
        )

  -- A batch has all its results, its final task is published, and a file B is registered in it before the
  -- cleanup forgets it. Then the result of B changes and publishes nothing where no file has followed; and
  -- where a file C has been registered after the cleanup, with no declared total or one of 1, the result
  -- of B completes the batch of C: onIdle publishes 1 of 1 as done while C has no result.
  pub late_file_ends_next_batch :
      (now later total : ℕ) (b_task c_task id : Text) (ok : Bool) (t : IngestTracker)
      (b : IngestBatch)
      → t.has_reg ≡ true
      → lookup id t.batches ≡ some b
      → ltb b.current b.total ≡ false
      → total ≤ 1
      → let (t1, final) = on_idle f id t in
        let t2 = (note_enqueue_with_batch f now b_task id total t1).0 in
        let t3 = forget id t2 in
        let t4 = (note_enqueue_with_batch f now c_task id total t3).0 in
        let t5 = (note_result_with_batch f later id ok t4).0 in
        (final ≡ some (done_task f b))
        × ((c : IngestBatch) × (lookup id t2.batches ≡ some c) × (c.enqueued ≡ b.enqueued + 1))
        × (note_result_with_batch f later id ok t3 ≡ (t3, none))
        × ((task : Task f) × ((on_idle f id t5).1 ≡ some task)
            × (task.status ≡ text "done")
            × (task.current ≡ 1)
            × (task.total ≡ 1))
  unfolding noted done_task forget
  late_file_ends_next_batch now later total b_task c_task id ok t b h e l k =
      let (h1, (c, e1, n)) = on_idle-has_reg id b t h e l in
      let t1 : IngestTracker = (on_idle f id t).0 in
      let t2 : IngestTracker = (note_enqueue_with_batch f now b_task id total t1).0 in
      let h2 : t2.has_reg ≡ true = note-has_reg now total b_task id t1 h1 in
      let t4 : IngestTracker = (note_enqueue_with_batch f now c_task id total (forget id t2)).0 in
      let h4 : t4.has_reg ≡ true = note-has_reg now total c_task id (forget id t2) h2 in
      let fresh : lookup id t4.batches ≡ some (noted now c_task total none) =
        registered_batch now total c_task id (forget id t2) h2
        ∙ ap (λ o. some (noted now c_task total o)) (gone id t2) in
      let last : IngestBatch = resulted later t4.idle_after ok (noted now c_task total none) in
      let (one, all) = one_done now later t4.idle_after total c_task ok k in
      (
        idle_task id b t e (ground (arith, l)),
        (
          noted now b_task total (some c),
          registered_batch now total b_task id t1 h1 ∙ ap (λ o. some (noted now b_task total o)) e1,
          ap (λ x. x + 1) n,
        ),
        lost_result later ok id t2 h2,
        (
          done_task f last,
          idle_task id last _ (resulted_batch later ok id _ t4 h4 fresh) (omega (arith, one, all)),
          refl,
          all,
          one,
        ),
      )

  release-absent :
      (path : Text) (seen : List Text) → text_mem path seen ≡ false → release path seen ≡ seen
  unfolding release text_mem
  release-absent path [] h = refl
  release-absent path (p ∷ seen) h = ground (arith, release-absent path seen)

  release-head :
      (path : Text) (seen : List Text)
      → text_mem path seen ≡ false
      → release path (path ∷ seen) ≡ seen
  unfolding release
  release-head path seen h = rw (text_eq_refl path) (release-absent path seen h)

  send-full :
      (path id : Text) (ix : Indexer)
      → queue_capacity ≤ length ix.queue
      → send path id ix ≡ (record ix { seen = release path ix.seen }, false)
  send-full path id ix q = ground arith

  -- Where the queue is full, a file that is new and not in a snapshots directory: EnqueueWithBatch
  -- leaves the indexer as it was and registers nothing; MarkAndReserve and then SubmitReserved leave
  -- the file registered in its batch, without an item in the queue and without a reservation.
  pub full_queue :
      (now : ℕ) (task_id path id : Text) (total : ℕ) (ix : Indexer)
      → is_in_snapshots_dir path ≡ false
      → text_mem path ix.seen ≡ false
      → queue_capacity ≤ length ix.queue
      → (enqueue_with_batch f now task_id path id total ix ≡ (ix, none))
        × (submit_reserved path id (mark_and_reserve f now task_id path id total ix).0
            ≡ record ix { ingest = (note_enqueue_with_batch f now task_id id total ix.ingest).0 })
  unfolding enqueue_with_batch mark_and_reserve submit_reserved
  full_queue now task_id path id total ix s m q =
      let registered : Indexer = record ix {
        seen = path ∷ ix.seen;
        ingest = (note_enqueue_with_batch f now task_id id total ix.ingest).0;
      } in
      let marked : (mark_and_reserve f now task_id path id total ix).0 ≡ registered =
        rw (s, m) refl in
      (
        rw
            (
              s,
              m,
              send-full path id (record ix { seen = path ∷ ix.seen }) q,
              release-head path ix.seen m,
            )
            refl,
        ap (λ x. (send path id x).0) marked
            ∙ ap (λ x. x.0) (send-full path id registered q)
            ∙ rw (release-head path ix.seen m) refl,
      )
