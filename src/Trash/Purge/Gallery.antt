-- ===== src/Trash/Purge/Gallery.antt =====
-- What PurgeAsset takes from assets that it does not purge.
use nimo_os_photos.Prelude.{
  ◌≡◌, refl, ◌∙◌, false, true, ◌||◌, Option, none, some, Text, text, text_Eq, text_eq, is_empty,
  dir_name, lookup, arith, Bool-cases, inl, inr,
}
use nimo_os_photos.Assets.{AssetRow, row_of, select, row_of-delete_row}
use nimo_os_photos.Files.{inside}
use nimo_os_photos.Trash.{TrashService, Faults, World, coalesce, is_trashed}
use nimo_os_photos.Trash.Purge.{
  purge_files, purge_found, purge_companion, purge_row, purge_selected, purge_asset,
  purge_asset_files,
}

module _ (s : TrashService) (f : Faults) (q : Text) where
  row-purge_found :
      (live_id : Text) (o : Option AssetRow) (w : World)
      → text_eq live_id q ≡ false
      → row_of q (purge_found s f live_id o w).table ≡ row_of q w.table
  unfolding purge_found
  row-purge_found live_id none w h = refl
  row-purge_found live_id (some r) w h = ground (arith, row_of-delete_row live_id q w.table, h)

  row-purge_companion :
      (live_id : Text) (w : World)
      → text_eq live_id q ≡ false
      → row_of q (purge_companion s f live_id w).table ≡ row_of q w.table
  unfolding purge_companion
  row-purge_companion live_id w h = elim (Bool-cases (is_empty live_id)) [
    | inl e ↦ rw e refl
    | inr e ↦ rw e (row-purge_found live_id (row_of live_id w.table) w h)
  ]

  row-purge_row :
      (id : Text) (w : World)
      → text_eq id q ≡ false
      → row_of q (purge_row s f id w).0.table ≡ row_of q w.table
  unfolding purge_row
  row-purge_row id w h = ground (arith, row_of-delete_row id q w.table, h)

  row-purge_asset :
      (id : Text) (r : AssetRow) (w : World)
      → select is_trashed id w.table ≡ some r
      → text_eq id q ≡ false
      → text_eq (coalesce r.live_photo_video_id) q ≡ false
      → row_of q (purge_asset s f id w).0.table ≡ row_of q w.table
  unfolding purge_asset purge_selected
  row-purge_asset id r w h d e = rw h (
      row-purge_row id (purge_companion s f (coalesce r.live_photo_video_id) w1) d
      ∙ row-purge_companion (coalesce r.live_photo_video_id) w1 e)
    where
      w1 : World
      w1 = record w { files = purge_files s f.disk id r.file_path w.files }

-- Purging a trashed asset that has a Live Photo companion takes away the file of every other asset q that
-- lies in the directory of the companion, unless that directory is "." or "/" or os.RemoveAll does not
-- get to remove the file; the row of q stays as it was. The companion need not be in the trash, so this
-- directory may be one of the gallery.
pub purge_takes_gallery_directory :
    (s : TrashService) (f : Faults) (id q : Text) (r v u : AssetRow) (w : World)
    → select is_trashed id w.table ≡ some r
    → is_empty (coalesce r.live_photo_video_id) ≡ false
    → row_of (coalesce r.live_photo_video_id) w.table ≡ some v
    → text_eq (dir_name v.file_path) (text ".") || text_eq (dir_name v.file_path) (text "/") ≡ false
    → row_of q w.table ≡ some u
    → text_eq id q ≡ false
    → text_eq (coalesce r.live_photo_video_id) q ≡ false
    → inside (dir_name v.file_path) u.file_path ≡ true
    → f.disk.stays u.file_path ≡ false
    → let w' = (purge_asset s f id w).0 in
      (row_of q w'.table ≡ some u) × (lookup u.file_path w'.files ≡ none)
purge_takes_gallery_directory s f id q r v u w h e hv g hu d k i z = (
  row-purge_asset s f q id r w h d k ∙ hu,
  purge_asset_files s f id u.file_path r w h ∙ rw (hv, e, g, i, z) (ground arith),
)
