-- ===== src/Ingest/Examples.antt =====
-- Runs of the tracker: an upload of one file.
use nimo_os_photos.Prelude.{
  ℕ, zero, suc, ap, arith, split, ◌≤◌, ◌≡◌, refl, true, false, none, some, List, [], ◌∷◌, Text,
  text, text_Eq, text_eq, text_mem, lookup, insert, length, thousandths,
}
use nimo_os_photos.ScanRoots.{is_in_snapshots_dir}
use nimo_os_photos.Tasks.{Task}
use nimo_os_photos.Ingest.{
  IngestBatch, IngestTracker, new_ingest_tracker, noted, resulted, done_task,
  note_enqueue_with_batch, note_result_with_batch, on_idle, forget, Indexer, queue_capacity,
  enqueue_with_batch, mark_and_reserve, submit_reserved,
}
use nimo_os_photos.Ingest.Counts.{Reach, here, next, notes, results, Complete, on_idle-Complete}
use nimo_os_photos.Ingest.Late.{late_file_ends_next_batch, full_queue}

abbrev upload : Text
upload = text "up"

tracker1 : IngestTracker
tracker1 =
    (note_enqueue_with_batch thousandths 5 (text "ingest_5") upload 1 (new_ingest_tracker true)).0

tracker2 : IngestTracker
tracker2 = (note_result_with_batch thousandths 8 upload true tracker1).0

tracker1-Reach : Reach thousandths upload (tracker1, 1)
unfolding tracker1
tracker1-Reach = next here (notes (new_ingest_tracker true) 0 5 (text "ingest_5") 1)

tracker2-Reach : Reach thousandths upload (tracker2, 0)
unfolding tracker2
tracker2-Reach = next tracker1-Reach (results tracker1 0 8 true)

on_idle-Complete_example :
    Complete thousandths upload (on_idle thousandths upload tracker2).1 0 tracker2
on_idle-Complete_example = on_idle-Complete thousandths upload tracker2 0 tracker2-Reach

abbrev batch1 : IngestBatch
batch1 = record {
  task_id = text "ingest_5";
  fixed_total = true;
  enqueued = 1;
  total = 1;
  current = 0;
  failed = 0;
  started_at = 5;
  idle_timer = none;
}

tracker1_batch : lookup upload tracker1.batches ≡ some batch1
unfolding tracker1 new_ingest_tracker note_enqueue_with_batch noted lookup insert text_eq
tracker1_batch = refl

abbrev batch2 : IngestBatch
batch2 = record batch1 { current = 1; idle_timer = some 6_000_000_008 }

tracker2_batch : lookup upload tracker2.batches ≡ some batch2
unfolding tracker2 tracker1 new_ingest_tracker note_enqueue_with_batch note_result_with_batch noted
    resulted lookup insert text_eq
tracker2_batch = refl

tracker2_reg : tracker2.has_reg ≡ true
unfolding tracker2 tracker1 new_ingest_tracker note_enqueue_with_batch note_result_with_batch noted
    resulted lookup insert text_eq
tracker2_reg = refl

late_file_ends_next_batch_example :
    let (t1, final) = on_idle thousandths upload tracker2 in
    let t2 = (note_enqueue_with_batch thousandths 9 (text "x") upload 1 t1).0 in
    let t3 = forget upload t2 in
    let t4 = (note_enqueue_with_batch thousandths 9 (text "y") upload 1 t3).0 in
    let t5 = (note_result_with_batch thousandths 20 upload true t4).0 in
    (final ≡ some (done_task thousandths batch2))
    × ((c : IngestBatch) × (lookup upload t2.batches ≡ some c) × (c.enqueued ≡ 2))
    × (note_result_with_batch thousandths 20 upload true t3 ≡ (t3, none))
    × ((task : Task thousandths) × ((on_idle thousandths upload t5).1 ≡ some task)
        × (task.status ≡ text "done")
        × (task.current ≡ 1)
        × (task.total ≡ 1))
late_file_ends_next_batch_example =
    late_file_ends_next_batch thousandths 9 20 1 (text "x") (text "y") upload true tracker2 batch2
      tracker2_reg tracker2_batch refl (omega arith)

repeated : ℕ → List (Text × Text)
repeated zero = []
repeated (suc n) = (text "/p", upload) ∷ repeated n

length-repeated : (n : ℕ) → length (repeated n) ≡ n
unfolding repeated
length-repeated zero = refl
length-repeated (suc n) = ap suc (length-repeated n)

full_indexer : Indexer
full_indexer = record {
  queue = repeated queue_capacity;
  seen = [];
  ingest = new_ingest_tracker true;
}

indexer_full : queue_capacity ≤ length full_indexer.queue
unfolding full_indexer
indexer_full = omega (arith, length-repeated queue_capacity)

path_ok :
    (is_in_snapshots_dir (text "/g/a.jpg") ≡ false)
    × (text_mem (text "/g/a.jpg") full_indexer.seen ≡ false)
unfolding is_in_snapshots_dir text_mem full_indexer text_eq split
path_ok = (refl, refl)

full_queue_example :
    (enqueue_with_batch thousandths 5 (text "t") (text "/g/a.jpg") upload 1 full_indexer
      ≡ (full_indexer, none))
    × (submit_reserved
          (text "/g/a.jpg")
          upload
          (mark_and_reserve thousandths 5 (text "t") (text "/g/a.jpg") upload 1 full_indexer).0
        ≡ record full_indexer {
          ingest =
              (note_enqueue_with_batch thousandths 5 (text "t") upload 1 full_indexer.ingest).0;
        })
full_queue_example =
    full_queue thousandths 5 (text "t") (text "/g/a.jpg") upload 1 full_indexer path_ok.0 path_ok.1
      indexer_full
