-- ===== src/UploadStore/Examples.antt =====
-- Tests of the upload store on two tasks, and instances of the theorems on them.
use nimo_os_photos.Prelude.{
  ℕ, ◌≡◌, refl, List, [], ◌∷◌, text, text_Eq, text_eq, lookup, insert, delete,
}
use nimo_os_photos.UploadStore.Rows.{Call, create_call, status_call, delete_call, run_calls}
use nimo_os_photos.UploadStore.{
  create, set_status, update_by_id, remove, by_created, newest_first, UploadTask, Store,
  list_due_for_gc, list_active_by_owner,
}

abbrev task : UploadTask
task = record {
  id = text "u1";
  owner_user_id = text "o";
  filename = text "f";
  target_path = [];
  relative_path = [];
  size = 9;
  mime = [];
  fingerprint = [];
  content_hash = [];
  upload_url = [];
  offset = 0;
  status = text "uploading";
  retry_count = 0;
  error = [];
  last_error_at = 0;
  batch_id = [];
  client_id = [];
  client_meta = [];
  created_at = 0;
  updated_at = 0;
  expires_at = 7;
}

abbrev later_task : UploadTask
later_task = record task { id = text "u2"; created_at = 3; expires_at = 90 }

abbrev store : Store
store = (text "u1", task) ∷ (text "u2", later_task) ∷ []

due_test : list_due_for_gc 10 store ≡ (task ∷ [])
unfolding list_due_for_gc
due_test = refl

active_test : list_active_by_owner (text "o") store ≡ (later_task ∷ task ∷ [])
unfolding list_active_by_owner newest_first by_created text_eq
active_test = refl

-- An upload that is paused after it was created, and another that is deleted.
abbrev paused : List (ℕ × Call)
paused =
    (1, create_call task)
    ∷ (2, create_call later_task)
    ∷ (3, status_call (text "u1") (text "paused") 20)
    ∷ (4, delete_call (text "u2"))
    ∷ []

paused_test :
    list_active_by_owner (text "o") (run_calls paused [])
    ≡ (record task { status = text "paused"; created_at = 1; updated_at = 3; expires_at = 20 } ∷ [])
unfolding run_calls create set_status update_by_id remove list_active_by_owner newest_first
    by_created lookup insert delete text_eq
paused_test = refl
