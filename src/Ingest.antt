-- ===== src/Ingest.antt =====
-- service/indexer.go: the tracker of ingest batches, and the entry points that put a file on the
-- workers' queue. The clock, the fresh task ids and the registry of service/tasks.go, to which the
-- tracker hands the tasks that a call returns, are arguments; the warning about an extra file is not
-- printed. Counts (int64) are natural numbers.
pub mod Counts
pub mod Late
mod Examples
use nimo_os_photos.Prelude.{
  ℕ, suc, ◌+◌, ◌≡◌, Bool, true, false, ◌&&◌, ◌||◌, not, Option, none, some, List, [], ◌∷◌, ◌++◌,
  Text, text, text_Eq, text_mem, is_empty, lookup, insert, delete, keep, text_eq, length, ltb, leb,
  Float64, if◌then◌else◌,
}
use nimo_os_photos.ScanRoots.{is_in_snapshots_dir}
use nimo_os_photos.Tasks.{Task}
use nimo_os_photos.Trash.Dedupe.{decimal}

pub record IngestBatch : Type 0 where
  pub task_id : Text
  pub fixed_total : Bool
  pub enqueued : ℕ
  pub total : ℕ
  pub current : ℕ
  pub failed : ℕ
  pub started_at : ℕ
  -- When the timer of onIdle is due, where it is armed.
  pub idle_timer : Option ℕ

pub record IngestTracker : Type 0 where
  pub has_reg : Bool  -- t.reg != nil
  pub batches : List (Text × IngestBatch)
  pub idle_after : ℕ

-- 6 * time.Second
pub new_ingest_tracker : Bool → IngestTracker
new_ingest_tracker has_reg = record { has_reg = has_reg; batches = []; idle_after = 6_000_000_000 }

abbrev pub set_batch : Text → IngestBatch → IngestTracker → IngestTracker
set_batch id b t = record t { batches = insert id b t.batches }

-- The batch after a file of it is registered.
unfoldable pub noted : ℕ → Text → ℕ → Option IngestBatch → IngestBatch
noted now task_id batch_total none = record {
  task_id = task_id;
  fixed_total = ltb 0 batch_total;
  enqueued = 1;
  total = if ltb 0 batch_total then batch_total else 1;
  current = 0;
  failed = 0;
  started_at = now;
  idle_timer = none;
}
noted now task_id batch_total (some b) =
    let n = b.enqueued + 1 in
    record b {
      enqueued = n;
      total =
          if b.fixed_total then (if ltb b.total n then b.total + 1 else b.total) else b.total + 1;
      idle_timer = none;
    }

-- The batch after one of its files is done.
unfoldable pub resulted : ℕ → ℕ → Bool → IngestBatch → IngestBatch
resulted now idle_after success b =
    let n = b.current + 1 in
    record b {
      current = n;
      failed = if success then b.failed else b.failed + 1;
      idle_timer = if leb b.total n then some (now + idle_after) else b.idle_timer;
    }

pub indexing_label : ℕ → Text
indexing_label failed =
    if ltb 0 failed
    then text "Indexing photos (" ++ (decimal failed failed ++ text " failed)")
    else text "Indexing photos"

module _ (f : Float64) where
  -- The task of a batch, with the zero values of the fields that the tracker does not set.
  abbrev pub batch_task : IngestBatch → Text → f.F → Text → Task f
  batch_task b label progress status = record {
    id = b.task_id;
    kind = text "index";
    label = label;
    current = b.current;
    total = b.total;
    added = 0;
    progress = progress;
    status = status;
    eta_seconds = 0;
    started_at = b.started_at;
    error = [];
    error_key = [];
    error_params = [];
  }

  -- The task that publishRunningLocked publishes.
  unfoldable pub running_task : IngestBatch → Task f
  running_task b =
      batch_task b (text "Indexing photos")
        (if ltb 0 b.total then f.div (f.lit b.current 1) (f.lit b.total 1) else f.lit 0 1)
        (text "running")

  -- The task that onIdle publishes.
  unfoldable pub done_task : IngestBatch → Task f
  done_task b = batch_task b (indexing_label b.failed) (f.lit 1 1) (text "done")

  unfoldable pub note_enqueue_with_batch :
      ℕ → Text → Text → ℕ → IngestTracker → IngestTracker × Option (Task f)
  note_enqueue_with_batch now task_id id batch_total t =
      let b = noted now task_id batch_total (lookup id t.batches) in
      if not t.has_reg then (t, none) else (set_batch id b t, some (running_task b))

  abbrev pub result_of :
      ℕ → Bool → Text → Option IngestBatch → IngestTracker → IngestTracker × Option (Task f)
  result_of now success id none t = (t, none)
  result_of now success id (some b) t =
      let b' = resulted now t.idle_after success b in (set_batch id b' t, some (running_task b'))

  unfoldable pub note_result_with_batch :
      ℕ → Text → Bool → IngestTracker → IngestTracker × Option (Task f)
  note_result_with_batch now id success t =
      if not t.has_reg then (t, none) else result_of now success id (lookup id t.batches) t

  abbrev pub idle_of : Text → Option IngestBatch → IngestTracker → IngestTracker × Option (Task f)
  idle_of id none t = (t, none)
  idle_of id (some b) t =
      if ltb b.current b.total
      then (t, none)
      else (set_batch id (record b { idle_timer = none }) t, some (done_task b))

  -- onIdle; where it publishes a task, it also calls onBatchDone and has the batch forgotten later.
  unfoldable pub on_idle : Text → IngestTracker → IngestTracker × Option (Task f)
  on_idle id t = idle_of id (lookup id t.batches) t

-- What the goroutine of onIdle does after taskCleanupDelay, besides removing the task.
unfoldable pub forget : Text → IngestTracker → IngestTracker
forget id t = record t { batches = delete id t.batches }

pub record Indexer : Type 0 where
  pub queue : List (Text × Text)
  pub seen : List Text
  pub ingest : IngestTracker

-- The buffer of the channel.
abbrev pub queue_capacity : ℕ
queue_capacity = 1024

-- seen.Delete
pub release : Text → List Text → List Text
release path seen = keep (λ p. not (text_eq p path)) seen

-- A send that does not block: the item is queued, or the reservation is released.
abbrev pub send : Text → Text → Indexer → Indexer × Bool
send path id ix =
    if ltb (length ix.queue) queue_capacity
    then (record ix { queue = ix.queue ++ ((path, id) ∷ []) }, true)
    else (record ix { seen = release path ix.seen }, false)

module _ (f : Float64) where
  -- EnqueueWithBatch, and Enqueue for the empty batch, whose total is 0.
  unfoldable pub enqueue_with_batch :
      ℕ → Text → Text → Text → ℕ → Indexer → Indexer × Option (Task f)
  enqueue_with_batch now task_id path id batch_total ix =
      let total = if is_empty id then 0 else batch_total in
      let (sent, ok) = send path id (record ix { seen = path ∷ ix.seen }) in
      let (t, task) = note_enqueue_with_batch f now task_id id total ix.ingest in
      if is_in_snapshots_dir path || text_mem path ix.seen
      then (ix, none)
      else if ok
      then (record sent { ingest = t }, task)
      else (sent, none)

  unfoldable pub mark_and_reserve :
      ℕ → Text → Text → Text → ℕ → Indexer → Indexer × Option (Task f) × Bool
  mark_and_reserve now task_id path id batch_total ix =
      let (t, task) = note_enqueue_with_batch f now task_id id batch_total ix.ingest in
      if is_in_snapshots_dir path || text_mem path ix.seen
      then (ix, none, false)
      else (record ix { seen = path ∷ ix.seen; ingest = t }, task, true)

unfoldable pub submit_reserved : Text → Text → Indexer → Indexer
submit_reserved path id ix = (send path id ix).0
