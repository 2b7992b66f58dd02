-- ===== src/ScanRoots/Table.antt =====
-- The scan roots of a mount table that the kernel printed.
use nimo_os_photos.Prelude.{
  ℕ, ◌≡◌, refl, ap, ◌∙◌, Bool, true, ◌&&◌, ◌||◌, not, List, [], ◌∷◌, ◌++◌, Text, text, text_eq,
  text_eq_iff, has_prefix, text_mem, any, split, lacks, split-lacks, ◌==◌, arith, Bool-cases, inl,
  inr,
}
use nimo_os_photos.ScanRoots.{
  is_in_snapshots_dir, is_excluded_mount, is_user_partition, drop_empty, spaces_as_one, fields,
  unescape_mount, root_of_fields, parse_scan_roots,
}
use nimo_os_photos.ScanRoots.Exclusion.{Rising, names_root, line_names, parse_scan_roots_lines}
use nimo_os_photos.ScanRoots.Printed.{
  MountEntry, mangle, mount_line, mount_table, unescape-mangle, lacks-append, fields-word,
  mangle-is_word, is_valid, word-no_newline,
}

fields-mount_line :
    (e : MountEntry)
    → is_valid e ≡ true
    → fields (mount_line e) ≡ e.device ∷ mangle e.mount_point ∷ e.fs_type ∷ fields e.options
fields-mount_line e h =
    fields-word e.device _ (ground (arith, h))
    ∙ ap (λ ws. e.device ∷ ws)
        (fields-word (mangle e.mount_point) _
            (mangle-is_word e.mount_point (ground (arith, h)) (ground (arith, h)))
          ∙ ap (λ ws. mangle e.mount_point ∷ ws)
              (fields-word e.fs_type e.options (ground (arith, h))))

line-no_newline : (e : MountEntry) → is_valid e ≡ true → lacks (λ c. c == 10) (mount_line e) ≡ true
line-no_newline e h =
    let newline : ℕ → Bool = λ c. c == 10 in
    ground (
      arith,
      h,
      word-no_newline e.device (ground (arith, h)),
      word-no_newline (mangle e.mount_point)
          (mangle-is_word e.mount_point (ground (arith, h)) (ground (arith, h))),
      word-no_newline e.fs_type (ground (arith, h)),
      lacks-append newline e.device
          (32 ∷ (mangle e.mount_point ++ (32 ∷ (e.fs_type ++ (32 ∷ e.options))))),
      lacks-append newline (mangle e.mount_point) (32 ∷ (e.fs_type ++ (32 ∷ e.options))),
      lacks-append newline e.fs_type (32 ∷ e.options),
    )

-- The mount point lies under /media or /mnt, and is none of the mounts of the system, not under
-- /media/devmon/ and not in a .snapshots directory.
abbrev pub is_allowed : Text → Bool
is_allowed r =
    (has_prefix r (text "/media/") || has_prefix r (text "/mnt/"))
    && not (text_eq (text "/media/root-ro") r)
    && not (text_eq (text "/media/root-rw") r)
    && not (text_eq (text "/mnt/overlay") r)
    && not (text_eq (text "/mnt/metadata") r)
    && not (has_prefix r (text "/media/devmon/"))
    && not (is_in_snapshots_dir r)

-- The entry is a mount at r that is no rclone mount.
abbrev pub is_mounted : Text → MountEntry → Bool
is_mounted r e =
    text_eq e.mount_point r && not (text_eq e.fs_type (text "fuse.rclone")) && is_allowed r

is_user_partition-allowed : (r : Text) → is_user_partition r ≡ is_allowed r
unfolding is_user_partition is_excluded_mount text_mem
is_user_partition-allowed r = ground arith

names_root-entry :
    (r dev mp fs : Text) (rest : List Text)
    → names_root r (root_of_fields (dev ∷ mp ∷ fs ∷ rest)) ≡ (
        text_eq (unescape_mount mp) r
        && not (text_eq fs (text "fuse.rclone"))
        && is_user_partition (unescape_mount mp))
unfolding root_of_fields
names_root-entry r dev mp fs rest = ground arith

line_names-entry :
    (r : Text) (e : MountEntry) → is_valid e ≡ true → line_names r (mount_line e) ≡ is_mounted r e
line_names-entry r e h =
    ap (λ fs. names_root r (root_of_fields fs)) (fields-mount_line e h)
    ∙ names_root-entry r e.device (mangle e.mount_point) e.fs_type (fields e.options)
    ∙ ap
        (λ mp. text_eq mp r && not (text_eq e.fs_type (text "fuse.rclone")) && is_user_partition mp)
        (unescape-mangle e.mount_point)
    ∙ elim (Bool-cases (text_eq e.mount_point r)) [
      | inr d ↦ rw d refl
      | inl d ↦
          ap (λ mp. text_eq e.mount_point r && not (text_eq e.fs_type (text "fuse.rclone")) && mp)
            (ap is_user_partition ((text_eq_iff e.mount_point r).0 d) ∙ is_user_partition-allowed r)
    ]

abbrev pub all_valid : List MountEntry → Bool
all_valid es = not (any (λ e. not (is_valid e)) es)

any_line :
    (r : Text) (es : List MountEntry)
    → all_valid es ≡ true
    → any (line_names r) (split 10 (mount_table es)) ≡ any (is_mounted r) es
unfolding split fields drop_empty spaces_as_one root_of_fields
any_line r [] h = refl
any_line r (e ∷ es) h =
    let v : is_valid e ≡ true = ground (arith, h) in
    rw (split-lacks 10 (mount_line e) (mount_table es) (line-no_newline e v))
      (ground (arith, line_names-entry r e v, any_line r es (ground (arith, h))))

-- The scan roots of a mount table whose entries are valid are exactly /DATA and the mount points, as they
-- were before the kernel escaped them, of the entries that are no fuse.rclone mount and lie under /media
-- or /mnt, without the mounts of the system, those under /media/devmon/ and those in a .snapshots
-- directory; and they are in strictly rising order, so none stands twice.
pub parse_scan_roots_exact :
    (es : List MountEntry) (r : Text)
    → all_valid es ≡ true
    → let roots = parse_scan_roots (mount_table es) in
      (text_mem r roots ≡ (text_eq (text "/DATA") r || any (is_mounted r) es)) × Rising roots
parse_scan_roots_exact es r h =
    let (m, rising) = parse_scan_roots_lines (mount_table es) r in
    (m ∙ ap (λ b. text_eq (text "/DATA") r || b) (any_line r es h), rising)
