-- ===== src/MountGuard/Examples.antt =====
-- Ticks of the guard.
use nimo_os_photos.Prelude.{
  ◌≡◌, refl, Bool, true, false, [], ◌∷◌, none, Text, text, text_eq, text_mem, split, has_prefix,
  trim_slashes, All, map,
}
use nimo_os_photos.Assets.{AssetRow}
use nimo_os_photos.ScanRoots.{is_excluded_mount, is_in_snapshots_dir}
use nimo_os_photos.MountGuard.{MountGuard, under, to_mount_set, check_once}
use nimo_os_photos.MountGuard.Tick.{tick_row, check_once_exact}
use nimo_os_photos.MountGuard.Alignment.{
  no_faults, aligned, overlaps, check_once-aligned, nested_goes_offline,
}

abbrev raid : Text
raid = text "/media/RAID_0"

abbrev stick : Text
stick = text "/media/stick"

abbrev photo : Text → Text → Bool → AssetRow
photo id path offline = record {
  id = id;
  file_path = path;
  original_path = none;
  deleted_at = none;
  live_photo_video_id = none;
  is_live_photo_video = false;
  offline = offline;
}

abbrev beach : AssetRow
beach = photo (text "1") (text "/media/stick/a.jpg") false

abbrev guard : MountGuard
guard = record { last_mounts = stick ∷ raid ∷ []; recovering = [] }

check_once_exact_example :
    (check_once no_faults (raid ∷ []) guard (beach ∷ [])).1
    ≡ map (tick_row no_faults (stick ∷ raid ∷ []) (to_mount_set (raid ∷ []))) (beach ∷ [])
check_once_exact_example = (check_once_exact no_faults (raid ∷ []) guard (beach ∷ []) stick).0

check_once-aligned_example :
    All
      (λ r. aligned (to_mount_set (raid ∷ [])) r ≡ true)
      (check_once no_faults (raid ∷ []) guard (beach ∷ [])).1
unfolding under has_prefix trim_slashes overlaps to_mount_set is_excluded_mount is_in_snapshots_dir
    text_mem text_eq split
check_once-aligned_example = check_once-aligned (raid ∷ []) guard (beach ∷ []) (refl, tt) (refl, tt)

-- /media/stick vanishes while /media/stick/inner stays.
abbrev inner : Text
inner = text "/media/stick/inner"

abbrev nested : MountGuard
nested = record { last_mounts = stick ∷ inner ∷ []; recovering = [] }

abbrev deep : AssetRow
deep = photo (text "2") (text "/media/stick/inner/b.jpg") false

nested_goes_offline_example :
    All (λ q. q.offline ≡ true) (check_once no_faults (inner ∷ []) nested (deep ∷ [])).1
unfolding under has_prefix trim_slashes overlaps to_mount_set is_excluded_mount is_in_snapshots_dir
    text_mem text_eq split
nested_goes_offline_example = (nested_goes_offline (inner ∷ []) nested deep refl refl).1
