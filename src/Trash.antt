-- ===== src/Trash.antt =====
-- service/trash.go: the soft delete of assets. The table and the files are the state, with a trace of
-- the calls of the caption hooks and of dropClipVector; what the file system and the statements
-- answer is an argument. `none` of a SELECT is sql.ErrNoRows; other read errors are not modelled.
pub mod Move
pub mod Dedupe
pub mod Atomic
pub mod Cycle
pub mod Purge
pub mod Bulk
mod Examples
use nimo_os_photos.Prelude.{
  ℕ, ◌+◌, ◌*◌, Bool, true, false, ◌&&◌, ◌||◌, not, Option, none, some, List, [], ◌∷◌, ◌++◌, map,
  Text, text, text_Eq, text_eq, text_mem, is_empty, clean, join, base_name, dir_name, delete, keep,
  is_some, ltb, if◌then◌else◌, ℤ, pos, negsuc,
}
use nimo_os_photos.Assets.{AssetRow, Table, select, row_of, update_row, delete_row}
use nimo_os_photos.Files.{Files, DiskFaults, exists, remove_all}
use nimo_os_photos.ScanRoots.{volume_root_for_path}
use nimo_os_photos.Trash.Move.{rename_or_copy}
use nimo_os_photos.Trash.Dedupe.{dedupe_path}

-- A call of a hook, or of dropClipVector.
pub data Effect : Type 0 where
  caption_delete : Text → Effect
  caption_restore : Text → Effect
  drop_clip_vector : Text → Effect

-- The fields of the service; the Booleans are whether a hook is set.
pub record TrashService : Type 0 where
  pub gallery_dir : Text
  pub thumb_dir : Text
  pub scan_roots : List Text
  pub on_caption_delete : Bool
  pub on_caption_restore : Bool

pub record Faults : Type 0 where
  pub disk : DiskFaults
  -- The statement on this asset fails: the UPDATE, its rollback, the DELETE.
  pub update_fails : Text → Bool
  pub rollback_fails : Text → Bool
  pub delete_fails : Text → Bool

pub record World : Type 0 where
  pub table : Table
  pub files : Files
  pub effects : List Effect

pub data Outcome : Type 0 where
  ok : Outcome
  not_found : Outcome
  failed : Outcome

abbrev pub emit : Bool → Effect → World → World
emit hooked e w = if hooked then record w { effects = e ∷ w.effects } else w

unfoldable pub trash_dir_for : TrashService → Text → Text → Text
trash_dir_for s id file_path =
    let root = volume_root_for_path file_path s.scan_roots in
    join (join (if is_empty root then s.gallery_dir else root) (text ".trash")) id

abbrev pub trash_path : TrashService → Text → Text → Text
trash_path s id file_path = join (trash_dir_for s id file_path) (base_name file_path)

abbrev pub set_trashed : ℕ → Text → Text → AssetRow → AssetRow
set_trashed now file_path dst r = record r {
  original_path = some file_path;
  file_path = dst;
  deleted_at = some now;
}

-- Of the rollback, and of a restore.
abbrev pub set_in_place : Text → AssetRow → AssetRow
set_in_place file_path r = record r {
  original_path = none;
  file_path = file_path;
  deleted_at = none;
}

-- The move after the UPDATE has landed.
move_updated : Faults → Text → Text → Text → Text → World → World × Outcome
move_updated f id file_path dst_dir dst w =
    let (files, moved) = rename_or_copy f.disk file_path dst w.files in
    if moved then (record w { files = files }, ok) else (
      record w {
        table =
            if f.rollback_fails id then w.table else update_row (set_in_place file_path) id w.table;
        files = remove_all f.disk dst_dir files;
      },
      failed,
    )

pub move_to_trash : TrashService → Faults → ℕ → Text → Text → World → World × Outcome
move_to_trash s f now id file_path w =
    let dst_dir = trash_dir_for s id file_path in
    let dst = join dst_dir (base_name file_path) in
    if f.disk.mkdir_fails dst_dir
    then (w, failed)
    else if f.update_fails id
    then (record w { files = remove_all f.disk dst_dir w.files }, failed)
    else move_updated f id file_path dst_dir dst
        (record w { table = update_row (set_trashed now file_path dst) id w.table })

abbrev pub is_live : AssetRow → Bool
is_live r = not (is_some r.deleted_at)

abbrev pub is_trashed : AssetRow → Bool
is_trashed r = is_some r.deleted_at

-- COALESCE(…,'')
abbrev pub coalesce : Option Text → Text
coalesce none = []
coalesce (some s) = s

-- The hook after a move that succeeded; of a companion's move an error is dropped.
hook_companion : Bool → Effect → World × Outcome → World
hook_companion hooked e (w, ok) = emit hooked e w
hook_companion hooked e (w, not_found) = w
hook_companion hooked e (w, failed) = w

trash_found : TrashService → Faults → ℕ → Text → Option AssetRow → World → World
trash_found s f now live_id none w = w
trash_found s f now live_id (some r) w =
    hook_companion s.on_caption_delete (caption_delete live_id)
      (move_to_trash s f now live_id r.file_path w)

trash_companion : TrashService → Faults → ℕ → Text → World → World
trash_companion s f now live_id w =
    if is_empty live_id then w else trash_found s f now live_id (select is_live live_id w.table) w

-- The rest of TrashAsset, after the move of the asset's own file.
trash_moved : TrashService → Faults → ℕ → Text → Text → World × Outcome → World × Outcome
trash_moved s f now id live_id (w, ok) =
    (emit s.on_caption_delete (caption_delete id) (trash_companion s f now live_id w), ok)
trash_moved s f now id live_id (w, not_found) = (w, not_found)
trash_moved s f now id live_id (w, failed) = (w, failed)

trash_row : TrashService → Faults → ℕ → Text → Option AssetRow → World → World × Outcome
trash_row s f now id none w = (w, not_found)
trash_row s f now id (some r) w =
    trash_moved s f now id (coalesce r.live_photo_video_id) (move_to_trash s f now id r.file_path w)

pub trash_asset : TrashService → Faults → ℕ → Text → World → World × Outcome
trash_asset s f now id w = trash_row s f now id (select is_live id w.table) w

-- The end of restoreFile: the row points at the place.
restore_row : Faults → Text → Text → World → World × Outcome
restore_row f id dst w =
    if f.update_fails id
    then (w, failed)
    else (record w { table = update_row (set_in_place dst) id w.table }, ok)

-- The move back to a free place.
restore_to : Faults → Text → Text → Text → World → World × Outcome
restore_to f id cur_path dst w =
    if f.disk.mkdir_fails (dir_name dst)
    then (w, failed)
    else let (files, moved) = rename_or_copy f.disk cur_path dst w.files in
      if moved
      then restore_row f id dst (record w { files = files })
      else (record w { files = files }, failed)

pub restore_file : Faults → Text → Text → Text → World → World × Outcome
restore_file f id cur_path orig_path w =
    if is_empty orig_path
    then restore_row f id cur_path w
    else restore_to f id cur_path
        (if exists orig_path w.files then dedupe_path orig_path w.files else orig_path) w

restore_found : TrashService → Faults → Text → Option AssetRow → World → World
restore_found s f live_id none w = w
restore_found s f live_id (some r) w =
    hook_companion s.on_caption_restore (caption_restore live_id)
      (restore_file f live_id r.file_path (coalesce r.original_path) w)

restore_companion : TrashService → Faults → Text → World → World
restore_companion s f live_id w =
    if is_empty live_id then w else restore_found s f live_id (select is_trashed live_id w.table) w

restore_moved : TrashService → Faults → Text → Text → World × Outcome → World × Outcome
restore_moved s f id live_id (w, ok) =
    (emit s.on_caption_restore (caption_restore id) (restore_companion s f live_id w), ok)
restore_moved s f id live_id (w, not_found) = (w, not_found)
restore_moved s f id live_id (w, failed) = (w, failed)

restore_selected : TrashService → Faults → Text → Option AssetRow → World → World × Outcome
restore_selected s f id none w = (w, not_found)
restore_selected s f id (some r) w =
    restore_moved s f id (coalesce r.live_photo_video_id)
      (restore_file f id r.file_path (coalesce r.original_path) w)

pub restore_asset : TrashService → Faults → Text → World → World × Outcome
restore_asset s f id w = restore_selected s f id (select is_trashed id w.table) w
