-- ===== src/Trash/Examples.antt =====
-- Tests of the trash on a small gallery, and instances of the theorems on it.
use nimo_os_photos.Prelude.{
  ◌≡◌, refl, true, false, ◌||◌, none, some, [], ◌∷◌, ◌⊎◌, Text, text, text_Eq, text_eq, has_prefix,
  split, trim_slashes, lookup, clean_from, clean, join, base_name, dir_name, ext, if◌then◌else◌,
}
use nimo_os_photos.Assets.{AssetRow, row_of}
use nimo_os_photos.Files.{inside, exists, DiskFaults, cross_device}
use nimo_os_photos.ScanRoots.{volume_root_for_path}
use nimo_os_photos.Trash.Dedupe.{dedupe_path, dedupe_path-free}
use nimo_os_photos.Trash.Atomic.{Trashed, Kept, move_to_trash_atomic, restore_file_keeps}
use nimo_os_photos.Trash.Cycle.{restore-trash}
use nimo_os_photos.Trash.Purge.{purge_asset, taken, companion_taken, purge_asset_files}
use nimo_os_photos.Trash.Purge.Gallery.{purge_takes_gallery_directory}
use nimo_os_photos.Trash.{
  TrashService, Faults, World, ok, failed, trash_dir_for, trash_path, set_in_place, move_to_trash,
  trash_asset, restore_asset, restore_file,
}

abbrev photo : AssetRow
photo = record {
  id = text "a";
  file_path = text "/g/p.jpg";
  original_path = none;
  deleted_at = none;
  live_photo_video_id = none;
  is_live_photo_video = false;
  offline = false;
}

abbrev disk : DiskFaults
disk = record {
  mkdir_fails = λ p. false;
  rename = λ p q. cross_device;
  copy_fails = λ p. false;
  partial = [];
  unlink_fails = λ p. false;
  stays = λ p. false;
}

abbrev faults : Faults
faults = record {
  disk = disk;
  update_fails = λ id. false;
  rollback_fails = λ id. false;
  delete_fails = λ id. false;
}

abbrev service : TrashService
service = record {
  gallery_dir = text "/g";
  thumb_dir = text "/t";
  scan_roots = [];
  on_caption_delete = true;
  on_caption_restore = true;
}

abbrev world : World
world = record {
  table = photo ∷ [];
  files = (text "/g/p.jpg", text "x") ∷ (text "/g/q.jpg", text "y") ∷ [];
  effects = [];
}

trash_path_test : trash_path service (text "a") (text "/g/p.jpg") ≡ text "/g/.trash/a/p.jpg"
unfolding trash_dir_for volume_root_for_path join clean base_name clean_from trim_slashes split
    has_prefix text_eq
trash_path_test = refl

dedupe_test : dedupe_path (text "/g/p.jpg") world.files ≡ text "/g/p (restored).jpg"
unfolding dedupe_path ext lookup text_eq
dedupe_test = refl

dedupe_path-free_example : exists (dedupe_path (text "/g/p.jpg") world.files) world.files ≡ false
dedupe_path-free_example = dedupe_path-free (text "/g/p.jpg") world.files

move_to_trash_atomic_example :
    let (w', res) = move_to_trash service faults 5 (text "a") photo.file_path world in
    ((res ≡ ok) × Trashed service 5 (text "a") photo world w')
    ⊎ ((res ≡ failed) × Kept (text "a") photo world w')
unfolding trash_dir_for volume_root_for_path join clean base_name clean_from trim_slashes split
    has_prefix text_eq inside
move_to_trash_atomic_example =
    move_to_trash_atomic service faults 5 (text "a") photo world refl (refl, refl) refl refl refl

restore_file_keeps_example :
    let (w', res) = restore_file faults (text "a") (text "/g/p.jpg") (text "/g/q.jpg") world in
    (lookup (text "/g/q.jpg") w'.files ≡ some (text "y"))
    × (((res ≡ ok)
          × (dst : Text) × (row_of (text "a") w'.table ≡ some (set_in_place dst photo))
          × (lookup dst w'.files ≡ some (text "x")))
        ⊎ ((res ≡ failed) × (w'.table ≡ world.table)))
unfolding text_eq lookup
restore_file_keeps_example =
    restore_file_keeps faults (text "a") (text "/g/p.jpg") (text "/g/q.jpg") (text "/g/q.jpg")
      (text "y") (text "x") photo world refl refl refl refl

restore-trash_example :
    let (w1, trashed) = trash_asset service faults 5 (text "a") world in
    let (w2, restored) = restore_asset service faults (text "a") w1 in
    (trashed ≡ ok)
    × (restored ≡ ok)
    × (row_of (text "a") w2.table ≡ some photo)
    × (lookup photo.file_path w2.files ≡ some (text "x"))
    × ((if text_eq photo.file_path (text "/g/q.jpg")
          then some (text "x")
          else lookup (text "/g/q.jpg") w2.files)
        ≡ (if text_eq photo.file_path (text "/g/q.jpg")
            then some (text "x")
            else lookup (text "/g/q.jpg") world.files))
unfolding trash_dir_for volume_root_for_path join clean base_name clean_from trim_slashes split
    has_prefix text_eq lookup
restore-trash_example =
    restore-trash service faults 5 (text "a") (text "/g/q.jpg") (text "x") photo world
      ((λ p. refl), (λ p. refl), (λ p. refl), λ p q e. absurd (cc e)) refl refl (refl, refl) refl
      refl refl refl refl

-- A still in the trash whose companion is in the gallery.
abbrev still : AssetRow
still = record photo {
  file_path = text "/g/.trash/a/p.jpg";
  deleted_at = some 5;
  live_photo_video_id = some (text "b");
}

abbrev video : AssetRow
video = record photo { id = text "b"; file_path = text "/g/p.mov"; is_live_photo_video = true }

abbrev half_trashed : World
half_trashed = record {
  table = still ∷ video ∷ [];
  files =
      (text "/g/.trash/a/p.jpg", text "x")
      ∷ (text "/g/p.mov", text "m")
      ∷ (text "/g/q.jpg", text "y")
      ∷ [];
  effects = [];
}

-- A photo in the directory of the companion.
abbrev other : AssetRow
other = record photo { id = text "c"; file_path = text "/g/q.jpg" }

abbrev gallery_neighbour : World
gallery_neighbour = record half_trashed { table = still ∷ video ∷ other ∷ [] }

purge_asset_files_example :
    lookup (text "/g/q.jpg") (purge_asset service faults (text "a") half_trashed).0.files ≡ (
      if taken service disk (text "a") still.file_path (text "/g/q.jpg")
        || companion_taken service disk
            (text "b")
            (row_of (text "b") half_trashed.table)
            (text "/g/q.jpg")
      then none
      else lookup (text "/g/q.jpg") half_trashed.files)
unfolding text_eq
purge_asset_files_example =
    purge_asset_files service faults (text "a") (text "/g/q.jpg") still half_trashed refl

purge_takes_gallery_directory_example :
    let w' = (purge_asset service faults (text "a") gallery_neighbour).0 in
    (row_of (text "c") w'.table ≡ some other) × (lookup other.file_path w'.files ≡ none)
unfolding text_eq dir_name clean clean_from split has_prefix inside
purge_takes_gallery_directory_example =
    purge_takes_gallery_directory service faults (text "a") (text "c") still video other
      gallery_neighbour refl refl refl refl refl refl refl refl refl

abbrev trashed_photo : AssetRow
trashed_photo = record photo { file_path = text "/g/.trash/a/p.jpg"; deleted_at = some 5 }

abbrev two_rows : World
two_rows = record half_trashed { table = trashed_photo ∷ record photo { id = text "c" } ∷ [] }
