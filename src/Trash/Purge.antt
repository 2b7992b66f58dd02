-- ===== src/Trash/Purge.antt =====
-- PurgeAsset of service/trash.go: what a permanent delete takes away. The errors of os.Remove and
-- os.RemoveAll are ignored: the row goes and the files that could not be removed stay.
pub mod Rows
pub mod Gallery
use nimo_os_photos.Prelude.{
  ℕ, ◌≡◌, refl, ap, sym, ◌∙◌, Bool, true, false, ◌&&◌, ◌||◌, not, Option, none, some, List, [], ◌∷◌,
  Text, text, text_Eq, text_eq, join, dir_name, is_empty, lookup, delete, lookup-delete, arith,
  Bool-cases, inl, inr, if◌then◌else◌,
}
use nimo_os_photos.Assets.{AssetRow, Table, row_of, select, delete_row, row_of-delete_row}
use nimo_os_photos.Files.{Files, DiskFaults, inside, remove_all, lookup-remove_all}
use nimo_os_photos.Trash.{
  TrashService, Faults, World, Outcome, ok, not_found, failed, Effect, caption_delete,
  drop_clip_vector, emit, coalesce, is_trashed,
}

pub purge_files : TrashService → DiskFaults → Text → Text → Files → Files
purge_files s d id cur_path files =
    let removed = if d.unlink_fails cur_path then files else delete cur_path files in
    let dir = dir_name cur_path in
    remove_all d (join s.thumb_dir id) (
      if text_eq dir (text ".") || text_eq dir (text "/")
      then removed
      else remove_all d dir removed)

-- The companion's row is read without a condition on deleted_at; an error of its DELETE is dropped.
purge_found : TrashService → Faults → Text → Option AssetRow → World → World
purge_found s f live_id none w = w
purge_found s f live_id (some r) w =
    let w' = emit s.on_caption_delete (caption_delete live_id) (record w {
      files = purge_files s f.disk live_id r.file_path w.files;
      effects = drop_clip_vector live_id ∷ w.effects;
    }) in
    if f.delete_fails live_id then w' else record w' { table = delete_row live_id w'.table }

purge_companion : TrashService → Faults → Text → World → World
unfolding purge_found
purge_companion s f live_id w =
    if is_empty live_id then w else purge_found s f live_id (row_of live_id w.table) w

-- The end of PurgeAsset.
purge_row : TrashService → Faults → Text → World → World × Outcome
purge_row s f id w =
    let w' =
      emit s.on_caption_delete (caption_delete id)
        (record w { effects = drop_clip_vector id ∷ w.effects }) in
    if f.delete_fails id then (w', failed) else (record w' { table = delete_row id w'.table }, ok)

purge_selected : TrashService → Faults → Text → Option AssetRow → World → World × Outcome
unfolding purge_row purge_companion
purge_selected s f id none w = (w, not_found)
purge_selected s f id (some r) w = purge_row s f id (
    purge_companion s f (coalesce r.live_photo_video_id)
      (record w { files = purge_files s f.disk id r.file_path w.files }))

unfoldable pub purge_asset : TrashService → Faults → Text → World → World × Outcome
unfolding purge_selected
purge_asset s f id w = purge_selected s f id (select is_trashed id w.table) w

-- A path is the asset's file and os.Remove succeeds on it, or it lies in that file's directory or in
-- the asset's thumbnails and os.RemoveAll gets to remove it.
abbrev pub taken : TrashService → DiskFaults → Text → Text → Text → Bool
taken s d id cur_path p =
    (text_eq cur_path p && not (d.unlink_fails cur_path))
    || (not (d.stays p)
        && (inside (join s.thumb_dir id) p
            || (not
                  (text_eq (dir_name cur_path) (text ".") || text_eq (dir_name cur_path) (text "/"))
                && inside (dir_name cur_path) p)))

pub lookup-purge_files :
    (s : TrashService) (d : DiskFaults) (id cur_path p : Text) (files : Files)
    → lookup p (purge_files s d id cur_path files)
      ≡ (if taken s d id cur_path p then none else lookup p files)
unfolding purge_files
lookup-purge_files s d id cur_path p files =
    lookup-remove_all d (join s.thumb_dir id) p _ ∙ elim (Bool-cases (d.unlink_fails cur_path)) [
      | inl e ↦ rw e (ground (arith, lookup-remove_all d (dir_name cur_path) p files))
      | inr e ↦ rw e (
          ground (
            arith,
            lookup-delete cur_path p files,
            lookup-remove_all d (dir_name cur_path) p (delete cur_path files),
          ))
    ]

-- What the companion of a purged asset takes away.
abbrev pub companion_taken : TrashService → DiskFaults → Text → Option AssetRow → Text → Bool
companion_taken s d live_id none p = false
companion_taken s d live_id (some r) p = not (is_empty live_id) && taken s d live_id r.file_path p

files-purge_found :
    (s : TrashService) (f : Faults) (live_id p : Text) (o : Option AssetRow) (w : World)
    → is_empty live_id ≡ false
    → lookup p (purge_found s f live_id o w).files
      ≡ (if companion_taken s f.disk live_id o p then none else lookup p w.files)
unfolding purge_found
files-purge_found s f live_id p none w h = refl
files-purge_found s f live_id p (some r) w h =
    ground (arith, lookup-purge_files s f.disk live_id r.file_path p w.files)

companion_taken-empty :
    (s : TrashService) (d : DiskFaults) (live_id p : Text) (o : Option AssetRow)
    → is_empty live_id ≡ true
    → companion_taken s d live_id o p ≡ false
companion_taken-empty s d live_id p none h = refl
companion_taken-empty s d live_id p (some r) h = rw h

files-purge_companion :
    (s : TrashService) (f : Faults) (live_id p : Text) (w : World)
    → lookup p (purge_companion s f live_id w).files ≡ (
        if companion_taken s f.disk live_id (row_of live_id w.table) p
        then none
        else lookup p w.files)
unfolding purge_companion
files-purge_companion s f live_id p w = elim (Bool-cases (is_empty live_id)) [
  | inl e ↦ rw (e, companion_taken-empty s f.disk live_id p (row_of live_id w.table) e)
  | inr e ↦ rw e (files-purge_found s f live_id p (row_of live_id w.table) w e)
]

files-purge_row :
    (s : TrashService) (f : Faults) (id : Text) (w : World) → (purge_row s f id w).0.files ≡ w.files
unfolding purge_row
files-purge_row s f id w = ground arith

-- Purging a trashed asset takes away exactly what the file system lets it of: its file, that file's
-- directory, its thumbnails, and the same of its Live Photo companion where it has one with a row. Each
-- other file keeps its bytes, and so does each file of these that could not be removed.
pub purge_asset_files :
    (s : TrashService) (f : Faults) (id p : Text) (r : AssetRow) (w : World)
    → select is_trashed id w.table ≡ some r
    → let live_id = coalesce r.live_photo_video_id in
      lookup p (purge_asset s f id w).0.files ≡ (
        if taken s f.disk id r.file_path p
          || companion_taken s f.disk live_id (row_of live_id w.table) p
        then none
        else lookup p w.files)
unfolding purge_asset purge_selected
purge_asset_files s f id p r w h =
    let live_id = coalesce r.live_photo_video_id in
    let w1 : World = record w { files = purge_files s f.disk id r.file_path w.files } in
    rw h (
      ap (lookup p) (files-purge_row s f id (purge_companion s f live_id w1))
      ∙ files-purge_companion s f live_id p w1
      ∙ ground (arith, lookup-purge_files s f.disk id r.file_path p w.files))
