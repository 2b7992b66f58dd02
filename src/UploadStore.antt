-- ===== src/UploadStore.antt =====
-- service/uploadstore/store.go: the table o_upload_tasks of resumable uploads, keyed by its primary
-- key id. The clock is an argument; a statement that the database refuses for another reason than a
-- key that is taken is not modelled.
pub mod Rows
mod Examples
use nimo_os_photos.Prelude.{
  ℕ, ◌≤◌, Bool, true, false, ◌&&◌, ◌||◌, not, Option, none, some, List, [], ◌∷◌, ◌++◌, map, Text,
  text, text_Eq, text_eq, lookup, insert, delete, keep, is_some, ltb, leb, ◌==◌, if◌then◌else◌,
}

pub record UploadTask : Type 0 where
  pub id : Text
  pub owner_user_id : Text
  pub filename : Text
  pub target_path : Text
  pub relative_path : Text
  pub size : ℕ
  pub mime : Text
  pub fingerprint : Text
  pub content_hash : Text
  pub upload_url : Text
  pub offset : ℕ
  pub status : Text
  pub retry_count : ℕ
  pub error : Text
  pub last_error_at : ℕ
  pub batch_id : Text
  pub client_id : Text
  pub client_meta : Text
  pub created_at : ℕ
  pub updated_at : ℕ
  pub expires_at : ℕ

abbrev pub Store : Type 0
Store = List (Text × UploadTask)

-- A caller's timestamp is kept, else it is now.
abbrev pub or_now : ℕ → ℕ → ℕ
or_now now t = if t == 0 then now else t

abbrev pub stamped : ℕ → UploadTask → UploadTask
stamped now t = record t {
  created_at = or_now now t.created_at;
  updated_at = or_now now t.updated_at;
}

-- The flag is whether the INSERT succeeded: the primary key refuses an id that is taken.
pub create : ℕ → UploadTask → Store → Store × Bool
create now t s =
    if is_some (lookup t.id s) then (s, false) else (insert t.id (stamped now t) s, true)

-- `none` is upload.ErrNotFound.
pub get : Text → Store → Option UploadTask
get id s = lookup id s

abbrev pub rows : Store → List UploadTask
rows s = map (λ e. e.1) s

abbrev pub is_active : UploadTask → Bool
is_active t =
    text_eq t.status (text "uploading")
    || text_eq t.status (text "paused")
    || text_eq t.status (text "failed")

-- A row in its place by created_at, the newest first.
by_created : UploadTask → List UploadTask → List UploadTask
by_created t [] = t ∷ []
by_created t (u ∷ us) =
    let later = by_created t us in if ltb t.created_at u.created_at then u ∷ later else t ∷ u ∷ us

newest_first : List UploadTask → List UploadTask
newest_first [] = []
newest_first (t ∷ ts) = by_created t (newest_first ts)

pub list_active_by_owner : Text → Store → List UploadTask
list_active_by_owner owner s =
    newest_first (keep (λ t. text_eq t.owner_user_id owner && is_active t) (rows s))

abbrev pub is_due : ℕ → UploadTask → Bool
is_due now t = ltb 0 t.expires_at && leb t.expires_at now

pub list_due_for_gc : ℕ → Store → List UploadTask
list_due_for_gc now s = keep (is_due now) (rows s)

-- UPDATE … WHERE id=?
update_by_id : (UploadTask → UploadTask) → Text → Store → Store
update_by_id f id [] = []
update_by_id f id ((k, t) ∷ s) = (k, if text_eq k id then f t else t) ∷ update_by_id f id s

pub update_offset : Text → ℕ → ℕ → ℕ → Store → Store
update_offset id offset expires_at now s =
    update_by_id (λ t. record t { offset = offset; expires_at = expires_at; updated_at = now }) id s

pub set_status : Text → Text → ℕ → ℕ → Store → Store
set_status id status expires_at now s =
    update_by_id (λ t. record t { status = status; expires_at = expires_at; updated_at = now }) id s

pub set_failed : Text → Text → ℕ → ℕ → ℕ → Store → Store
set_failed id err_msg last_error_at expires_at now s =
    update_by_id
      (λ t. record t {
        status = text "failed";
        error = err_msg;
        last_error_at = last_error_at;
        expires_at = expires_at;
        updated_at = now;
      })
      id s

-- An id without a row is no error.
pub remove : Text → Store → Store
remove id s = delete id s
