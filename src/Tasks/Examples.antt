-- ===== src/Tasks/Examples.antt =====
-- Runs of the task registry.
use nimo_os_photos.Prelude.{
  ◌≡◌, refl, true, [], ◌∷◌, pos, text, text_Eq, text_eq, lookup, insert, thousandths,
}
use nimo_os_photos.Tasks.{
  Task, TaskRegistry, new_task_registry, upsert, should_publish, bucket_crossed,
}
use nimo_os_photos.Tasks.Keys.{KeyInv, upserts, sweeps, calls, run_calls-KeyInv}

abbrev scan : Task thousandths
scan = record {
  id = text "scan";
  kind = text "index";
  label = text "Indexing";
  current = 1;
  total = 10;
  added = 0;
  progress = pos 100;
  status = text "running";
  eta_seconds = 0;
  started_at = 0;
  error = [];
  error_key = [];
  error_params = [];
}

registry : TaskRegistry thousandths
registry = (upsert thousandths (new_task_registry thousandths true) scan 7).0

-- A second update within half a second, in the same bucket, is not published.
throttled : (upsert thousandths registry (record scan { progress = pos 104 }) 9).1 ≡ []
unfolding registry upsert new_task_registry should_publish bucket_crossed lookup insert text_eq
throttled = refl

run_calls-KeyInv_example : KeyInv thousandths (text "scan") (
    calls thousandths
      (new_task_registry thousandths true)
      (upserts scan 7 ∷ sweeps 5 100 ∷ upserts scan 101 ∷ []))
run_calls-KeyInv_example =
    run_calls-KeyInv thousandths true (upserts scan 7 ∷ sweeps 5 100 ∷ upserts scan 101 ∷ [])
      (text "scan")
