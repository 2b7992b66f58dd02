-- ===== src/Trash/Move.antt =====
-- renameOrCopy of service/trash.go.
use nimo_os_photos.Prelude.{
  or_else, Bool-cases, inl, inr, ◌≡◌, ◌≢◌, refl, ◌&&◌, text_eq, text_eq→≡, text_eq_refl,
  lookup-insert, lookup-delete, arith, sym, Bool, true, false, Option, none, some, Text, text_Eq,
  lookup, insert, delete, if◌then◌else◌,
}
use nimo_os_photos.Files.{Files, RenameOutcome, moved, cross_device, refused, DiskFaults, move_file}

-- The copy over devices; the flag is whether it succeeded.
unfoldable pub copy_across : DiskFaults → Text → Text → Text → Files → Files × Bool
copy_across d src dst bytes files =
    if d.copy_fails src
    then ((if d.unlink_fails dst then insert dst d.partial files else delete dst files), false)
    else if d.unlink_fails src
    then (insert dst bytes files, false)
    else (move_file src dst bytes files, true)

rename_existing : DiskFaults → RenameOutcome → Text → Text → Text → Files → Files × Bool
rename_existing d moved src dst bytes files = (move_file src dst bytes files, true)
rename_existing d refused src dst bytes files = (files, false)
rename_existing d cross_device src dst bytes files = copy_across d src dst bytes files

rename_source : DiskFaults → Option Text → Text → Text → Files → Files × Bool
rename_source d none src dst files = (files, true)
rename_source d (some bytes) src dst files =
    rename_existing d (d.rename src dst) src dst bytes files

-- A source that does not exist counts as moved.
unfoldable pub rename_or_copy : DiskFaults → Text → Text → Files → Files × Bool
unfolding rename_existing rename_source
rename_or_copy d src dst files = rename_source d (lookup src files) src dst files

lookup-move_file :
    (src dst bytes j : Text) (files : Files)
    → lookup j (move_file src dst bytes files)
      ≡ (if text_eq dst j then some bytes else if text_eq src j then none else lookup j files)
lookup-move_file src dst bytes j files = rw (lookup-insert, lookup-delete)

copy_across-elsewhere :
    (d : DiskFaults) (src dst bytes j : Text) (files : Files)
    → text_eq dst j ≡ false
    → lookup j (copy_across d src dst bytes files).0
      ≡ (if (copy_across d src dst bytes files).1 && text_eq src j then none else lookup j files)
unfolding copy_across
copy_across-elsewhere d src dst bytes j files h = ground (
  arith,
  lookup-insert dst j d.partial files,
  lookup-insert dst j bytes files,
  lookup-delete dst j files,
  lookup-move_file src dst bytes j files,
)

rename_existing-elsewhere :
    (d : DiskFaults) (o : RenameOutcome) (src dst bytes j : Text) (files : Files)
    → text_eq dst j ≡ false
    → lookup j (rename_existing d o src dst bytes files).0 ≡ (
        if (rename_existing d o src dst bytes files).1 && text_eq src j
        then none
        else lookup j files)
unfolding rename_existing
rename_existing-elsewhere d moved src dst bytes j files h = rw (lookup-move_file, h)
rename_existing-elsewhere d refused src dst bytes j files h = refl
rename_existing-elsewhere d cross_device src dst bytes j files h =
    copy_across-elsewhere d src dst bytes j files h

rename_existing-target :
    (d : DiskFaults) (o : RenameOutcome) (src dst bytes : Text) (files : Files)
    → (rename_existing d o src dst bytes files).1 ≡ true
    → lookup dst (rename_existing d o src dst bytes files).0 ≡ some bytes
unfolding rename_existing copy_across
rename_existing-target d moved src dst bytes files h = rw (lookup-move_file, text_eq_refl)
rename_existing-target d refused src dst bytes files h = absurd (cc h)
rename_existing-target d cross_device src dst bytes files h =
    ground (arith, lookup-move_file src dst bytes dst files, text_eq_refl dst)

missing :
    (src j : Text) (files : Files)
    → lookup src files ≡ none
    → lookup j files ≡ (if text_eq src j then none else lookup j files)
missing src j files e = elim (Bool-cases (text_eq src j)) [
  | inl q ↦ rw (q, sym (text_eq→≡ src j q)) e
  | inr q ↦ rw q
]

rename_source-elsewhere :
    (d : DiskFaults) (o : Option Text) (src dst j : Text) (files : Files)
    → lookup src files ≡ o
    → text_eq dst j ≡ false
    → lookup j (rename_source d o src dst files).0
      ≡ (if (rename_source d o src dst files).1 && text_eq src j then none else lookup j files)
unfolding rename_source
rename_source-elsewhere d none src dst j files e h = missing src j files e
rename_source-elsewhere d (some b) src dst j files e h =
    rename_existing-elsewhere d (d.rename src dst) src dst b j files h

rename_source-target :
    (d : DiskFaults) (o : Option Text) (src dst : Text) (files : Files)
    → (rename_source d o src dst files).1 ≡ true
    → lookup dst (rename_source d o src dst files).0 ≡ or_else o (lookup dst files)
unfolding rename_source
rename_source-target d none src dst files h = refl
rename_source-target d (some b) src dst files h =
    rename_existing-target d (d.rename src dst) src dst b files h

-- Away from the target, a move takes the source away if it succeeds, and nothing else.
pub rename_or_copy-elsewhere :
    (d : DiskFaults) (src dst j : Text) (files : Files)
    → text_eq dst j ≡ false
    → lookup j (rename_or_copy d src dst files).0
      ≡ (if (rename_or_copy d src dst files).1 && text_eq src j then none else lookup j files)
unfolding rename_or_copy
rename_or_copy-elsewhere d src dst j files h =
    rename_source-elsewhere d (lookup src files) src dst j files refl h

-- The target holds the source's bytes after a move that succeeds.
pub rename_or_copy-target :
    (d : DiskFaults) (src dst : Text) (files : Files)
    → (rename_or_copy d src dst files).1 ≡ true
    → lookup dst (rename_or_copy d src dst files).0 ≡ or_else (lookup src files) (lookup dst files)
unfolding rename_or_copy
rename_or_copy-target d src dst files h = rename_source-target d (lookup src files) src dst files h

-- The disk does what it is asked to, if not always on one device.
abbrev pub Sound : DiskFaults → Type 0
Sound d =
    ((p : Text) → d.mkdir_fails p ≡ false)
    × ((p : Text) → d.copy_fails p ≡ false)
    × ((p : Text) → d.unlink_fails p ≡ false)
    × ((p q : Text) → d.rename p q ≢ refused)

rename_existing-Sound :
    (d : DiskFaults) (o : RenameOutcome) (src dst bytes : Text) (files : Files)
    → Sound d
    → o ≢ refused
    → (rename_existing d o src dst bytes files).1 ≡ true
unfolding rename_existing copy_across
rename_existing-Sound d moved src dst bytes files h n = refl
rename_existing-Sound d refused src dst bytes files h n = absurd (n refl)
rename_existing-Sound d cross_device src dst bytes files h n = rw (h.1 src, h.2 src)

rename_source-Sound :
    (d : DiskFaults) (o : Option Text) (src dst : Text) (files : Files)
    → Sound d
    → (rename_source d o src dst files).1 ≡ true
unfolding rename_source
rename_source-Sound d none src dst files h = refl
rename_source-Sound d (some b) src dst files h =
    rename_existing-Sound d (d.rename src dst) src dst b files h (h.3 src dst)

pub rename_or_copy-Sound :
    (d : DiskFaults) (src dst : Text) (files : Files)
    → Sound d
    → (rename_or_copy d src dst files).1 ≡ true
unfolding rename_or_copy
rename_or_copy-Sound d src dst files h = rename_source-Sound d (lookup src files) src dst files h
