-- ===== src/Trash/Purge/Rows.antt =====
-- What PurgeAsset does to the rows of the table.
use nimo_os_photos.Prelude.{
  ◌≡◌, refl, ◌∙◌, Option, none, some, Text, text_Eq, text_eq, is_empty, text_eq_refl, arith,
  Bool-cases, inl, inr, ◌⊎◌,
}
use nimo_os_photos.Assets.{AssetRow, Table, row_of, select, delete_row, row_of-delete_row}
use nimo_os_photos.Trash.{TrashService, Faults, World, ok, coalesce, is_trashed}
use nimo_os_photos.Trash.Purge.{
  purge_files, purge_found, purge_companion, purge_row, purge_selected, purge_asset,
}

-- A table has no row that another does not have.
abbrev pub Within : Table → Table → Type 0
Within t t' = (j : Text) → (row_of j t ≡ none) ⊎ (row_of j t ≡ row_of j t')

Within-delete_row : (id : Text) (t : Table) → Within (delete_row id t) t
Within-delete_row id t j = elim (Bool-cases (text_eq id j)) [
  | inl e ↦ inl (row_of-delete_row id j t ∙ rw e)
  | inr e ↦ inr (row_of-delete_row id j t ∙ rw e)
]

pub Within-trans : (t u v : Table) → Within t u → Within u v → Within t v
Within-trans t u v h k j = elim (h j) [
  | inl n ↦ inl n
  | inr e ↦ elim (k j) [ inl n ↦ inl (e ∙ n) | inr q ↦ inr (e ∙ q) ]
]

Within-purge_found :
    (s : TrashService) (f : Faults) (id : Text) (o : Option AssetRow) (w : World)
    → Within (purge_found s f id o w).table w.table
unfolding purge_found
Within-purge_found s f id none w j = inr refl
Within-purge_found s f id (some r) w j = ground (arith, Within-delete_row id w.table j)

Within-purge_companion :
    (s : TrashService) (f : Faults) (id : Text) (w : World)
    → Within (purge_companion s f id w).table w.table
unfolding purge_companion
Within-purge_companion s f id w j = elim (Bool-cases (is_empty id)) [
  | inl e ↦ rw e (inr refl)
  | inr e ↦ rw e (Within-purge_found s f id (row_of id w.table) w j)
]

Within-purge_row :
    (s : TrashService) (f : Faults) (id : Text) (w : World)
    → Within (purge_row s f id w).0.table w.table
unfolding purge_row
Within-purge_row s f id w j = ground (arith, Within-delete_row id w.table j)

gone-purge_row :
    (s : TrashService) (f : Faults) (id : Text) (w : World)
    → (purge_row s f id w).1 ≡ ok
    → row_of id (purge_row s f id w).0.table ≡ none
unfolding purge_row
gone-purge_row s f id w h = elim (Bool-cases (f.delete_fails id)) [
  | inl e ↦ absurd (cc (rw e at h))
  | inr e ↦ rw e (ground (arith, row_of-delete_row id id w.table, text_eq_refl id))
]

Within-purge_selected :
    (s : TrashService) (f : Faults) (id : Text) (o : Option AssetRow) (w : World)
    → Within (purge_selected s f id o w).0.table w.table
unfolding purge_selected
Within-purge_selected s f id none w = λ j. inr refl
Within-purge_selected s f id (some r) w =
    Within-trans _ _ _
      (Within-purge_row s f id (purge_companion s f (coalesce r.live_photo_video_id) w1))
      (Within-purge_companion s f (coalesce r.live_photo_video_id) w1)
  where
    w1 : World
    w1 = record w { files = purge_files s f.disk id r.file_path w.files }

gone-purge_selected :
    (s : TrashService) (f : Faults) (id : Text) (o : Option AssetRow) (w : World)
    → (purge_selected s f id o w).1 ≡ ok
    → row_of id (purge_selected s f id o w).0.table ≡ none
unfolding purge_selected
gone-purge_selected s f id none w h = absurd (cc h)
gone-purge_selected s f id (some r) w h = gone-purge_row s f id _ h

pub purge_asset-Within :
    (s : TrashService) (f : Faults) (id : Text) (w : World)
    → Within (purge_asset s f id w).0.table w.table
unfolding purge_asset
purge_asset-Within s f id w = Within-purge_selected s f id (select is_trashed id w.table) w

pub purge_asset-gone :
    (s : TrashService) (f : Faults) (id : Text) (w : World)
    → (purge_asset s f id w).1 ≡ ok
    → row_of id (purge_asset s f id w).0.table ≡ none
unfolding purge_asset
purge_asset-gone s f id w h = gone-purge_selected s f id (select is_trashed id w.table) w h
