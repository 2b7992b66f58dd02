-- ===== src/ScanRoots/Examples.antt =====
-- Tests on a small mount table, and instances of the theorems on it.
use nimo_os_photos.Prelude.{
  clean_from, text_lt, trim_slashes, text_eq, ◌≡◌, refl, ◌||◌, List, [], ◌∷◌, ◌++◌, Text, text,
  text_mem, has_prefix, split, any,
}
use nimo_os_photos.ScanRoots.{
  collect_roots, add_root, root_of_fields, fields, drop_empty, spaces_as_one, add_sorted,
  is_user_partition, is_excluded_mount, escape, rclone_lines, rclone_of_fields, sort_in,
  volume_from, better, lives_under, parse_scan_roots, parse_rclone_mounts, unescape_mount,
  is_in_snapshots_dir, volume_root_for_path,
}
use nimo_os_photos.ScanRoots.Exclusion.{Rising}
use nimo_os_photos.ScanRoots.Printed.{MountEntry, mangle, mount_table}
use nimo_os_photos.ScanRoots.Table.{is_mounted, parse_scan_roots_exact}

abbrev mounts : Text
mounts =
    text "/dev/sda1 /media/root-ro ext4 rw"
    ++ 10 ∷ text "/dev/sdb1 /media/My\\040Disk ext4 rw"
    ++ 10 ∷ text "cloud: /media/cloud fuse.rclone rw"

roots_test : parse_scan_roots mounts ≡ (text "/DATA" ∷ text "/media/My Disk" ∷ [])
unfolding parse_scan_roots collect_roots add_root root_of_fields fields drop_empty spaces_as_one
    add_sorted is_user_partition is_excluded_mount is_in_snapshots_dir unescape_mount escape
    clean_from text_mem text_eq text_lt has_prefix split
roots_test = refl

rclone_test : parse_rclone_mounts mounts ≡ (text "/media/cloud" ∷ [])
unfolding parse_rclone_mounts rclone_lines rclone_of_fields fields drop_empty spaces_as_one
    unescape_mount escape sort_in text_eq split
rclone_test = refl

abbrev entries : List MountEntry
entries =
    record {
      device = text "/dev/sda1";
      mount_point = text "/media/root-ro";
      fs_type = text "ext4";
      options = text "rw";
    }
    ∷ record {
      device = text "/dev/sdb1";
      mount_point = text "/media/My Disk";
      fs_type = text "ext4";
      options = text "rw";
    }
    ∷ record {
      device = text "cloud:";
      mount_point = text "/media/cloud";
      fs_type = text "fuse.rclone";
      options = text "rw";
    }
    ∷ []

-- The table above is that of the entries, but for the newline at its end.
entries_test : mount_table entries ≡ mounts ++ (10 ∷ [])
unfolding mangle
entries_test = refl

parse_scan_roots_exact_example :
    let roots = parse_scan_roots (mount_table entries) in
    (text_mem (text "/media/My Disk") roots ≡ (
      text_eq (text "/DATA") (text "/media/My Disk")
      || any (is_mounted (text "/media/My Disk")) entries))
    × Rising roots
unfolding mangle
parse_scan_roots_exact_example = parse_scan_roots_exact entries (text "/media/My Disk") refl

abbrev volumes : List Text
volumes = text "/media/a" ∷ text "/media/a/b/" ∷ text "/DATA" ∷ []

volume_test : volume_root_for_path (text "/media/a/b/c.jpg") volumes ≡ text "/media/a/b"
unfolding volume_root_for_path volume_from better trim_slashes lives_under text_eq has_prefix
volume_test = refl
