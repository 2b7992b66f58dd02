-- ===== src/Trash/Cycle.antt =====
-- An asset that is trashed and then restored is as it was.
use nimo_os_photos.Prelude.{
  ℕ, ◌≡◌, refl, ap, ◌∙◌, Bool, true, false, none, some, [], Text, text_Eq, text_eq, text_eq_refl,
  is_empty, Bool-cases, inl, inr, lookup, if◌then◌else◌, dir_name,
}
use nimo_os_photos.Assets.{AssetRow, row_of, select-some, update_row}
use nimo_os_photos.Files.{exists}
use nimo_os_photos.Trash.Move.{
  rename_or_copy, rename_or_copy-elsewhere, rename_or_copy-target, Sound, rename_or_copy-Sound,
}
use nimo_os_photos.Trash.{
  TrashService, Faults, World, ok, Effect, emit, caption_delete, caption_restore, trash_path,
  trash_dir_for, set_trashed, set_in_place, coalesce, move_updated, move_to_trash, trash_companion,
  trash_moved, trash_row, trash_asset, restore_row, restore_to, restore_file, restore_companion,
  restore_moved, restore_selected, restore_asset, is_live, is_trashed,
}
use nimo_os_photos.Trash.Atomic.{Live, row-set_trashed, row-set_in_place, rolled_back}

move_to_trash-Sound :
    (s : TrashService) (f : Faults) (now : ℕ) (id path : Text) (w : World)
    → Sound f.disk
    → f.update_fails id ≡ false
    → move_to_trash s f now id path w ≡ (
      record w {
        table = update_row (set_trashed now path (trash_path s id path)) id w.table;
        files = (rename_or_copy f.disk path (trash_path s id path) w.files).0;
      },
      ok,
    )
unfolding move_to_trash move_updated
move_to_trash-Sound s f now id path w d u = rw (
  d.0 (trash_dir_for s id path),
  u,
  rename_or_copy-Sound f.disk path (trash_path s id path) w.files d,
)

restore_file-Sound :
    (f : Faults) (id cur orig : Text) (w : World)
    → Sound f.disk
    → f.update_fails id ≡ false
    → is_empty orig ≡ false
    → exists orig w.files ≡ false
    → restore_file f id cur orig w ≡ (
      record w {
        table = update_row (set_in_place orig) id w.table;
        files = (rename_or_copy f.disk cur orig w.files).0;
      },
      ok,
    )
unfolding restore_file restore_to restore_row
restore_file-Sound f id cur orig w d u e x =
    rw (e, x, d.0 (dir_name orig), rename_or_copy-Sound f.disk cur orig w.files d, u)

table-emit : (hooked : Bool) (e : Effect) (w : World) → (emit hooked e w).table ≡ w.table
table-emit true e w = refl
table-emit false e w = refl

files-emit : (hooked : Bool) (e : Effect) (w : World) → (emit hooked e w).files ≡ w.files
files-emit true e w = refl
files-emit false e w = refl

trashed_world : TrashService → Faults → ℕ → Text → Text → World → World
trashed_world s f now id path w = emit s.on_caption_delete (caption_delete id) (record w {
  table = update_row (set_trashed now path (trash_path s id path)) id w.table;
  files = (rename_or_copy f.disk path (trash_path s id path) w.files).0;
})

trash_asset-Sound :
    (s : TrashService) (f : Faults) (now : ℕ) (id : Text) (r : AssetRow) (w : World)
    → Sound f.disk
    → f.update_fails id ≡ false
    → row_of id w.table ≡ some r
    → Live r
    → coalesce r.live_photo_video_id ≡ []
    → trash_asset s f now id w ≡ (trashed_world s f now id r.file_path w, ok)
unfolding trash_asset trash_row trash_moved trash_companion trashed_world
trash_asset-Sound s f now id r w d u h l v = rw (
  select-some is_live id w.table r h (rw l.1),
  move_to_trash-Sound s f now id r.file_path w d u,
  v,
)

restored_world : TrashService → Faults → Text → Text → Text → World → World
restored_world s f id cur orig w = emit s.on_caption_restore (caption_restore id) (record w {
  table = update_row (set_in_place orig) id w.table;
  files = (rename_or_copy f.disk cur orig w.files).0;
})

restore_asset-Sound :
    (s : TrashService) (f : Faults) (id orig : Text) (now : ℕ) (r : AssetRow) (w : World)
    → Sound f.disk
    → f.update_fails id ≡ false
    → row_of id w.table ≡ some r
    → r.deleted_at ≡ some now
    → r.original_path ≡ some orig
    → coalesce r.live_photo_video_id ≡ []
    → is_empty orig ≡ false
    → exists orig w.files ≡ false
    → restore_asset s f id w ≡ (restored_world s f id r.file_path orig w, ok)
unfolding restore_asset restore_selected restore_moved restore_companion restored_world
restore_asset-Sound s f id orig now r w d u h l o v e x = rw (
  select-some is_trashed id w.table r h (rw l),
  o,
  restore_file-Sound f id r.file_path orig w d u e x,
  v,
)

-- A live asset with a file and without a Live Photo companion, if no call fails and the trash path is
-- not the file's own: trashing and then restoring it succeed, its row is again as it was, its file has
-- its bytes, and every other file but the one at the trash path too.
pub restore-trash :
    (s : TrashService) (f : Faults) (now : ℕ) (id p b : Text) (r : AssetRow) (w : World)
    → Sound f.disk
    → f.update_fails id ≡ false
    → row_of id w.table ≡ some r
    → Live r
    → coalesce r.live_photo_video_id ≡ []
    → is_empty r.file_path ≡ false
    → lookup r.file_path w.files ≡ some b
    → text_eq (trash_path s id r.file_path) r.file_path ≡ false
    → text_eq (trash_path s id r.file_path) p ≡ false
    → let (w1, trashed) = trash_asset s f now id w in
      let (w2, restored) = restore_asset s f id w1 in
      (trashed ≡ ok)
      × (restored ≡ ok)
      × (row_of id w2.table ≡ some r)
      × (lookup r.file_path w2.files ≡ some b)
      × ((if text_eq r.file_path p then some b else lookup p w2.files)
          ≡ (if text_eq r.file_path p then some b else lookup p w.files))
unfolding trashed_world restored_world
restore-trash s f now id p b r w d u h l v e hb n m =
    rw
      (
        trash_asset-Sound s f now id r w d u h l v,
        restore_asset-Sound s f id path now (set_trashed now path dst r) w1 d u row refl refl v e
            (rw gone refl),
      )
      (refl, refl, row2, bytes, other)
  where
    path : Text
    path = r.file_path

    dst : Text
    dst = trash_path s id path

    w1 : World
    w1 = trashed_world s f now id path w

    row : row_of id w1.table ≡ some (set_trashed now path dst r)
    row =
        ap (row_of id) (table-emit s.on_caption_delete (caption_delete id) _)
        ∙ row-set_trashed now id path dst w.table r h

    files1 : w1.files ≡ (rename_or_copy f.disk path dst w.files).0
    files1 = files-emit s.on_caption_delete (caption_delete id) _

    gone : lookup path w1.files ≡ none
    gone =
        ap (lookup path) files1
        ∙ rename_or_copy-elsewhere f.disk path dst path w.files n
        ∙ rw (rename_or_copy-Sound f.disk path dst w.files d, text_eq_refl)

    held : lookup dst w1.files ≡ some b
    held =
        ap (lookup dst) files1
        ∙ rename_or_copy-target f.disk path dst w.files
            (rename_or_copy-Sound f.disk path dst w.files d)
        ∙ rw hb

    w2 : World
    w2 = restored_world s f id dst path w1

    row2 : row_of id w2.table ≡ some r
    row2 =
        ap (row_of id) (table-emit s.on_caption_restore (caption_restore id) _)
        ∙ row-set_in_place id path w1.table (set_trashed now path dst r) row
        ∙ ap some (rolled_back now dst r l)

    files2 : w2.files ≡ (rename_or_copy f.disk dst path w1.files).0
    files2 = files-emit s.on_caption_restore (caption_restore id) _

    bytes : lookup path w2.files ≡ some b
    bytes =
        ap (lookup path) files2
        ∙ rename_or_copy-target f.disk dst path w1.files
            (rename_or_copy-Sound f.disk dst path w1.files d)
        ∙ rw held

    other :
        (if text_eq path p then some b else lookup p w2.files)
        ≡ (if text_eq path p then some b else lookup p w.files)
    other = elim (Bool-cases (text_eq path p)) [
      | inl q ↦ rw q
      | inr q ↦ rw q (
          ap (lookup p) files2
          ∙ rename_or_copy-elsewhere f.disk dst path p w1.files q
          ∙ rw (m, (rename_or_copy-Sound f.disk dst path w1.files d))
              (ap (lookup p) files1
                ∙ rename_or_copy-elsewhere f.disk path dst p w.files m
                ∙ rw (q, rename_or_copy-Sound f.disk path dst w.files d)))
    ]
