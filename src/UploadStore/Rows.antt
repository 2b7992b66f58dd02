-- ===== src/UploadStore/Rows.antt =====
-- The upload store as a map from ids to tasks.
use nimo_os_photos.Prelude.{
  ℕ, ◌≡◌, Bool, false, ◌&&◌, not, Option, none, some, List, [], ◌∷◌, Text, text, text_Eq, text_eq,
  lookup, ltb, leb, lookup-insert, is_some, arith, if◌then◌else◌, any,
}
use mathlib.Core.Option as Option
use nimo_os_photos.UploadStore.{
  UploadTask, Store, stamped, create, get, update_offset, set_status, set_failed, remove,
}

-- Create on a free id makes Get return the task, with the times filled in, and changes the answer for
-- no other id; on an id that is taken it fails and changes nothing.
get-create :
    (now : ℕ) (t : UploadTask) (j : Text) (s : Store)
    → let (s', created) = create now t s in
      (created ≡ not (is_some (get t.id s)))
      × (get j s' ≡ (if text_eq t.id j && created then some (stamped now t) else get j s))
unfolding create get
get-create now t j s = ground (arith, lookup-insert t.id j (stamped now t) s)

-- The calls that write.
pub data Call : Type 0 where
  create_call : UploadTask → Call
  offset_call : Text → ℕ → ℕ → Call
  status_call : Text → Text → ℕ → Call
  failed_call : Text → Text → ℕ → ℕ → Call
  delete_call : Text → Call

abbrev pub apply_call : ℕ → Call → Store → Store
apply_call now (create_call t) s = (create now t s).0
apply_call now (offset_call id o e) s = update_offset id o e now s
apply_call now (status_call id st e) s = set_status id st e now s
apply_call now (failed_call id m l e) s = set_failed id m l e now s
apply_call now (delete_call id) s = remove id s

-- Each call with its time.
unfoldable pub run_calls : List (ℕ × Call) → Store → Store
run_calls [] s = s
run_calls ((now, c) ∷ cs) s = run_calls cs (apply_call now c s)

-- A task's key is its id, and no id stands twice.
abbrev pub Keyed : Store → Type 0
Keyed [] = Unit
Keyed ((k, t) ∷ s) = (k ≡ t.id) × (lookup k s ≡ none) × Keyed s

-- A task of this id is in a list.
abbrev pub listed : Text → List UploadTask → Bool
listed j ts = any (λ t. text_eq t.id j) ts

abbrev pub holds : (UploadTask → Bool) → Option UploadTask → Bool
holds q none = false
holds q (some t) = q t

-- A task that an owner can resume, and one that has expired.
abbrev pub resumable : Text → UploadTask → Bool
resumable owner t =
    text_eq t.owner_user_id owner
    && any (λ st. text_eq t.status st) (text "uploading" ∷ text "paused" ∷ text "failed" ∷ [])

abbrev pub expired : ℕ → UploadTask → Bool
expired now t = ltb 0 t.expires_at && leb t.expires_at now
