-- ===== src/Assets.antt =====
-- The columns of the table assets (pkg/sqlite/db.go) that the modelled components read and write, and
-- the SQL that they share: an UPDATE with a WHERE clause over the rows of the table.
use nimo_os_photos.Prelude.{
  ℕ, Bool, true, Option, List, [], ◌∷◌, map, none, some, ◌≡◌, ◌∙◌, ap, arith, text_eq_iff, Text,
  text_eq, find_first, keep, not, if◌then◌else◌,
}
use mathlib.Core.Option as Option

pub record AssetRow : Type 0 where
  pub id : Text
  pub file_path : Text
  pub original_path : Option Text
  pub deleted_at : Option ℕ
  pub live_photo_video_id : Option Text
  pub is_live_photo_video : Bool
  pub offline : Bool

abbrev pub Table : Type 0
Table = List AssetRow

-- UPDATE assets SET … WHERE …
abbrev pub update_where : (AssetRow → Bool) → (AssetRow → AssetRow) → Table → Table
update_where p f t = map (λ r. if p r then f r else r) t

-- The row of an id, which is the primary key.
abbrev pub row_of : Text → Table → Option AssetRow
row_of id t = find_first (λ r. text_eq r.id id) t

abbrev pub select_if : (AssetRow → Bool) → Option AssetRow → Option AssetRow
select_if q none = none
select_if q (some r) = if q r then some r else none

-- SELECT … WHERE id=? AND …
abbrev pub select : (AssetRow → Bool) → Text → Table → Option AssetRow
select q id t = select_if q (row_of id t)

pub select-some :
    (q : AssetRow → Bool) (id : Text) (t : Table) (r : AssetRow)
    → row_of id t ≡ some r
    → q r ≡ true
    → select q id t ≡ some r
select-some q id t r h k = ap (select_if q) h ∙ rw k

abbrev pub update_row : (AssetRow → AssetRow) → Text → Table → Table
update_row f id t = update_where (λ r. text_eq r.id id) f t

abbrev pub delete_row : Text → Table → Table
delete_row id t = keep (λ r. not (text_eq r.id id)) t

pub row_of-update_row :
    (f : AssetRow → AssetRow) (id j : Text) (t : Table)
    → ((r : AssetRow) → (f r).id ≡ r.id)
    → row_of j (update_row f id t)
      ≡ (if text_eq id j then Option.map f (row_of j t) else row_of j t)
row_of-update_row f id j [] h = ground arith
row_of-update_row f id j (r ∷ t) h = ground (
  arith,
  h r,
  text_eq_iff r.id id,
  text_eq_iff r.id j,
  text_eq_iff id j,
  row_of-update_row f id j t h,
)

pub row_of-delete_row :
    (id j : Text) (t : Table)
    → row_of j (delete_row id t) ≡ (if text_eq id j then none else row_of j t)
row_of-delete_row id j [] = ground arith
row_of-delete_row id j (r ∷ t) =
    ground
      (arith, text_eq_iff r.id id, text_eq_iff r.id j, text_eq_iff id j, row_of-delete_row id j t)
