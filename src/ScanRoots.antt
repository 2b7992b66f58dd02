-- ===== src/ScanRoots.antt =====
-- service/scanroots.go and isInSnapshotsDir of service/snapshots.go: which mount points are scanned,
-- and the volume that a file lives on. The mount table is the text of /proc/mounts, an argument;
-- of Go's white space the ASCII bytes are modelled, which is what that table uses.
pub mod Exclusion
pub mod Volume
pub mod Printed
pub mod Table
mod Examples
use nimo_os_photos.Prelude.{
  is_space, ℕ, ◌+◌, Bool, true, false, ◌&&◌, ◌||◌, not, Option, none, some, List, [], ◌∷◌, ◌++◌,
  Text, text, text_eq, clean_from, text_lt, has_prefix, split, trim_slashes, text_mem, is_empty,
  length, any, ltb, leb, ◌==◌, if◌then◌else◌,
}

abbrev pub system_mounts : List Text
system_mounts =
    text "/media/root-ro" ∷ text "/media/root-rw" ∷ text "/mnt/overlay" ∷ text "/mnt/metadata" ∷ []

abbrev pub excluded_mount_prefixes : List Text
excluded_mount_prefixes = text "/media/devmon/" ∷ []

unfoldable pub is_in_snapshots_dir : Text → Bool
unfolding clean_from
is_in_snapshots_dir path =
    text_mem (text ".snapshots") (clean_from (has_prefix path (text "/")) [] (split b'/' path))

unfoldable pub is_excluded_mount : Text → Bool
unfolding is_in_snapshots_dir
is_excluded_mount mp =
    text_mem mp system_mounts
    || any (λ p. has_prefix mp p) excluded_mount_prefixes
    || is_in_snapshots_dir mp

pub is_user_partition : Text → Bool
is_user_partition mp =
    if is_excluded_mount mp
    then false
    else has_prefix mp (text "/media/") || has_prefix mp (text "/mnt/")

drop_empty : List Text → List Text
drop_empty [] = []
drop_empty (w ∷ ws) = let rest = drop_empty ws in if is_empty w then rest else w ∷ rest

spaces_as_one : Text → Text
spaces_as_one [] = []
spaces_as_one (c ∷ s) = (if is_space c then 32 else c) ∷ spaces_as_one s

-- strings.Fields
pub fields : Text → List Text
fields s = drop_empty (split 32 (spaces_as_one s))

-- The byte that an octal escape of the mount table stands for.
escape : ℕ → ℕ → ℕ → Option ℕ
escape a b c =
    if a == b'0' && b == b'4' && c == b'0'
    then some 32
    else if a == b'0' && b == b'1' && c == b'1'
    then some 9
    else if a == b'0' && b == b'1' && c == b'2'
    then some 10
    else if a == b'1' && b == b'3' && c == b'4'
    then some b'\\'
    else none

-- The replacer of unescapeMount: at each byte, an escape is replaced and passed over.
pub unescape_mount : Text → Text
unescape_mount (a ∷ b ∷ c ∷ d ∷ s) =
    let after_one = unescape_mount (b ∷ c ∷ d ∷ s) in
    let after_four = unescape_mount s in
    elim (if a == b'\\' then escape b c d else none) [
      | none ↦ a ∷ after_one
      | some e ↦ e ∷ after_four
    ]
unescape_mount s = s

-- A set of mount points, sorted: the keys of the map after sort.Strings.
add_sorted : Text → List Text → List Text
add_sorted s [] = s ∷ []
add_sorted s (t ∷ ts) =
    if text_eq s t then t ∷ ts else if text_lt s t then s ∷ t ∷ ts else t ∷ add_sorted s ts

abbrev pub rclone_fs_type : Text
rclone_fs_type = text "fuse.rclone"

-- The scan root that a line of the mount table names, if it names one.
pub root_of_fields : List Text → Option Text
root_of_fields (dev ∷ mp ∷ fs ∷ rest) =
    if text_eq fs rclone_fs_type
    then none
    else if is_user_partition (unescape_mount mp)
    then some (unescape_mount mp)
    else none
root_of_fields _ = none

add_root : Option Text → List Text → List Text
add_root none roots = roots
add_root (some mp) roots = add_sorted mp roots

collect_roots : List Text → List Text → List Text
collect_roots roots [] = roots
collect_roots roots (line ∷ lines) =
    collect_roots (add_root (root_of_fields (fields line)) roots) lines

pub parse_scan_roots : Text → List Text
parse_scan_roots mounts = collect_roots (text "/DATA" ∷ []) (split 10 mounts)

-- sort.Strings puts a string in its place among sorted ones.
sort_in : Text → List Text → List Text
sort_in s [] = s ∷ []
sort_in s (t ∷ ts) = if text_lt t s then t ∷ sort_in s ts else s ∷ t ∷ ts

rclone_of_fields : List Text → List Text → List Text
rclone_of_fields (dev ∷ mp ∷ fs ∷ rest) out =
    if text_eq fs rclone_fs_type then sort_in (unescape_mount mp) out else out
rclone_of_fields _ out = out

rclone_lines : List Text → List Text
rclone_lines [] = []
rclone_lines (line ∷ lines) = rclone_of_fields (fields line) (rclone_lines lines)

pub parse_rclone_mounts : Text → List Text
parse_rclone_mounts mounts = rclone_lines (split 10 mounts)

-- A read failure of the mount table is `none`.
pub enumerate_scan_roots : Option Text → List Text
enumerate_scan_roots none = text "/DATA" ∷ []
enumerate_scan_roots (some mounts) = parse_scan_roots mounts

-- The root trimmed, if the path lives under it.
unfoldable pub lives_under : Text → Text → Bool
lives_under path r = text_eq path r || has_prefix path (r ++ text "/")

better : Text → Text → Text → Text
unfolding lives_under
better path best r =
    if is_empty r
    then best
    else if lives_under path r && ltb (length best) (length r)
    then r
    else best

volume_from : Text → Text → List Text → Text
unfolding better
volume_from path best [] = best
volume_from path best (r ∷ rs) = volume_from path (better path best (trim_slashes r)) rs

unfoldable pub volume_root_for_path : Text → List Text → Text
unfolding volume_from
volume_root_for_path path roots = volume_from path [] roots
