-- ===== src/Trash/Atomic.antt =====
-- moveToTrash either takes effect or leaves the asset as it was; restoreFile loses no file.
use nimo_os_photos.Prelude.{
  or_else, ℕ, ◌≡◌, refl, ap, sym, ◌∙◌, Bool, false, none, some, Text, text_Eq, text_eq, text_eq→≡,
  text_eq_refl, dir_name, lookup, arith, ◌⊎◌, inl, inr, Bool-cases, if◌then◌else◌, is_empty,
}
use nimo_os_photos.Assets.{AssetRow, Table, row_of, update_row, row_of-update_row}
use nimo_os_photos.Files.{Files, inside, exists, remove_all, lookup-remove_all}
use nimo_os_photos.Trash.Move.{rename_or_copy, rename_or_copy-elsewhere, rename_or_copy-target}
use nimo_os_photos.Trash.Dedupe.{dedupe_path, dedupe_path-free}
use nimo_os_photos.Trash.{
  TrashService, Faults, World, Outcome, ok, failed, trash_dir_for, trash_path, set_trashed,
  set_in_place, move_updated, move_to_trash, restore_row, restore_to, restore_file,
}

-- The asset is in the trash: its row says so, and the trash path has the bytes of its file.
abbrev pub Trashed : TrashService → ℕ → Text → AssetRow → World → World → Type 0
Trashed s now id r w w' =
    (row_of id w'.table ≡ some (set_trashed now r.file_path (trash_path s id r.file_path) r))
    × (lookup (trash_path s id r.file_path) w'.files
        ≡ or_else (lookup r.file_path w.files) (lookup (trash_path s id r.file_path) w.files))
    × (lookup r.file_path w'.files ≡ none)

-- The asset is as it was.
abbrev pub Kept : Text → AssetRow → World → World → Type 0
Kept id r w w' =
    (row_of id w'.table ≡ some r) × (lookup r.file_path w'.files ≡ lookup r.file_path w.files)

abbrev Result : TrashService → ℕ → Text → AssetRow → World → World × Outcome → Type 0
Result s now id r w (w', res) =
    ((res ≡ ok) × Trashed s now id r w w') ⊎ ((res ≡ failed) × Kept id r w w')

pub row-set_trashed :
    (now : ℕ) (id path dst : Text) (t : Table) (r : AssetRow)
    → row_of id t ≡ some r
    → row_of id (update_row (set_trashed now path dst) id t) ≡ some (set_trashed now path dst r)
row-set_trashed now id path dst t r h =
    rw (row_of-update_row (set_trashed now path dst) id id t (λ x. refl), text_eq_refl, h)

pub row-set_in_place :
    (id path : Text) (t : Table) (r : AssetRow)
    → row_of id t ≡ some r
    → row_of id (update_row (set_in_place path) id t) ≡ some (set_in_place path r)
row-set_in_place id path t r h =
    rw (row_of-update_row (set_in_place path) id id t (λ x. refl), text_eq_refl, h)

-- A live row is what the rollback makes of it.
abbrev pub Live : AssetRow → Type 0
Live r = (r.original_path ≡ none) × (r.deleted_at ≡ none)

pub rolled_back :
    (now : ℕ) (dst : Text) (r : AssetRow)
    → Live r
    → set_in_place r.file_path (set_trashed now r.file_path dst r) ≡ r
rolled_back now dst r (o, d) = λ i. record r { original_path = sym o i; deleted_at = sym d i }

-- If the row is live, and neither its rollback fails nor its file already lies in the asset's trash
-- directory or at the trash path: moveToTrash puts the asset in the trash and says so, or it reports a
-- failure and has left the row and the file as they were.
pub move_to_trash_atomic :
    (s : TrashService) (f : Faults) (now : ℕ) (id : Text) (r : AssetRow) (w : World)
    → row_of id w.table ≡ some r
    → Live r
    → f.rollback_fails id ≡ false
    → inside (trash_dir_for s id r.file_path) r.file_path ≡ false
    → text_eq (trash_path s id r.file_path) r.file_path ≡ false
    → let (w', res) = move_to_trash s f now id r.file_path w in
      ((res ≡ ok) × Trashed s now id r w w') ⊎ ((res ≡ failed) × Kept id r w w')
unfolding move_to_trash move_updated
move_to_trash_atomic s f now id r w h l b i n =
    elim (Bool-cases (f.disk.mkdir_fails (trash_dir_for s id r.file_path))) [
      | inl e ↦ rw e (inr (refl, (h, refl)))
      | inr e ↦ elim (Bool-cases (f.update_fails id)) [
        | inl u ↦ rw (e, u) (inr (refl, (h, removed)))
        | inr u ↦ elim (Bool-cases moves) [
          | inl m ↦
              rw (e, u, m)
                (inl (
                  refl,
                  (
                    trashed,
                    rename_or_copy-target f.disk r.file_path dst w.files m,
                    rename_or_copy-elsewhere f.disk r.file_path dst r.file_path w.files n
                        ∙ rw (m, text_eq_refl),
                  ),
                ))
          | inr m ↦
              rw (e, u, m, b)
                (inr (
                  refl,
                  (
                    row-set_in_place id r.file_path _ _ trashed ∙ ap some (rolled_back now dst r l),
                    lookup-remove_all f.disk (trash_dir_for s id r.file_path) r.file_path _
                        ∙ rw i (
                            rename_or_copy-elsewhere f.disk r.file_path dst r.file_path w.files n
                            ∙ rw m),
                  ),
                ))
        ]
      ]
    ]
  where
    dst : Text
    dst = trash_path s id r.file_path

    moves : Bool
    moves = (rename_or_copy f.disk r.file_path dst w.files).1

    trashed :
        row_of id (update_row (set_trashed now r.file_path dst) id w.table)
        ≡ some (set_trashed now r.file_path dst r)
    trashed = row-set_trashed now id r.file_path dst w.table r h

    removed :
        lookup r.file_path (remove_all f.disk (trash_dir_for s id r.file_path) w.files)
        ≡ lookup r.file_path w.files
    removed = lookup-remove_all f.disk (trash_dir_for s id r.file_path) r.file_path w.files ∙ rw i

-- The place that restoreFile moves a file to is free.
abbrev free_place : Text → Files → Text
free_place orig files = if exists orig files then dedupe_path orig files else orig

free_place-free : (orig : Text) (files : Files) → exists (free_place orig files) files ≡ false
free_place-free orig files = elim (Bool-cases (exists orig files)) [
  | inl e ↦ rw e (dedupe_path-free orig files)
  | inr e ↦ rw e e
]

-- A path that holds a file is not a free one.
apart_from_free :
    (free p c : Text) (files : Files)
    → exists free files ≡ false
    → lookup p files ≡ some c
    → text_eq free p ≡ false
apart_from_free free p c files h l = elim (Bool-cases (text_eq free p)) [
  | inl e ↦ absurd (cc (rw (text_eq→≡ free p e, l) at h))
  | inr e ↦ e
]

-- Whatever fails, restoreFile overwrites and removes no file but the one it moves: each other file
-- has its bytes. If it succeeds, the row points at a path that has the moved file's bytes.
pub restore_file_keeps :
    (f : Faults) (id cur orig p c b : Text) (r : AssetRow) (w : World)
    → row_of id w.table ≡ some r
    → lookup cur w.files ≡ some b
    → lookup p w.files ≡ some c
    → text_eq cur p ≡ false
    → let (w', res) = restore_file f id cur orig w in
      (lookup p w'.files ≡ some c)
      × (((res ≡ ok)
            × (dst : Text) × (row_of id w'.table ≡ some (set_in_place dst r))
            × (lookup dst w'.files ≡ some b))
          ⊎ ((res ≡ failed) × (w'.table ≡ w.table)))
unfolding restore_file restore_to restore_row
restore_file_keeps f id cur orig p c b r w h hb hc n = elim (Bool-cases (is_empty orig)) [
  | inl e ↦ elim (Bool-cases (f.update_fails id)) [
    | inl u ↦ rw (e, u) (hc, inr (refl, refl))
    | inr u ↦ rw (e, u) (hc, inl (refl, cur, row-set_in_place id cur w.table r h, hb))
  ]
  | inr e ↦ elim (Bool-cases (f.disk.mkdir_fails (dir_name dst))) [
    | inl k ↦ rw (e, k) (hc, inr (refl, refl))
    | inr k ↦ elim (Bool-cases moves) [
      | inr m ↦ rw (e, k, m) (kept, inr (refl, refl))
      | inl m ↦ elim (Bool-cases (f.update_fails id)) [
        | inl u ↦ rw (e, k, m, u) (kept, inr (refl, refl))
        | inr u ↦
            rw (e, k, m, u)
              (
                kept,
                inl (
                  refl,
                  dst,
                  row-set_in_place id dst w.table r h,
                  rename_or_copy-target f.disk cur dst w.files m ∙ rw hb,
                ),
              )
      ]
    ]
  ]
]
  where
    dst : Text
    dst = free_place orig w.files

    moves : Bool
    moves = (rename_or_copy f.disk cur dst w.files).1

    kept : lookup p (rename_or_copy f.disk cur dst w.files).0 ≡ some c
    kept =
        rename_or_copy-elsewhere f.disk cur dst p w.files
          (apart_from_free dst p c w.files (free_place-free orig w.files) hc)
        ∙ rw (n, hc) (ground arith)
