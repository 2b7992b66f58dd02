-- ===== src/Moments/Rows.antt =====
-- The tables moments, moment_assets and moment_edits, and the columns of assets that decide whether an
-- asset is alive. Deleting a moment takes its members and its edits away (ON DELETE CASCADE). Times are
-- Unix milliseconds; a time.Time that is zero is none. NULL and no text in cover_asset_id are none.
use nimo_os_photos.Prelude.{
  ℕ, Bool, true, false, ◌&&◌, not, Option, none, some, List, Text, text_Eq, pair_Eq, lookup,
  keep_keys,
}

pub record Moment : Type 0 where
  pub recipe_key : Text
  pub title : Text
  pub subtitle : Text
  pub cover_asset_id : Option Text
  pub time_from : Option ℕ
  pub time_to : Option ℕ
  pub place : Text
  pub asset_count : ℕ
  pub named_by_llm : Bool
  pub created_at : ℕ
  pub updated_at : ℕ
  pub sort_order : Option ℕ
  pub hidden : Bool

pub record Member (F : Type 0) : Type 0 where
  pub featured : Bool
  pub score : F
  pub manual : Bool
  pub added_at : Option ℕ

pub data EditOp : Type 0 where
  pin exclude : EditOp

pub record Edit : Type 0 where
  pub op : EditOp
  pub created_at : ℕ

pub record AssetState : Type 0 where
  pub indexed : Bool
  pub deleted : Bool
  pub offline : Bool
  pub taken_at : Option ℕ

-- The key (moment_id, asset_id).
abbrev pub MemberKey : Type 0
MemberKey = Text × Text

abbrev pub Members : Type 0 → Type 0
Members F = List (MemberKey × Member F)

abbrev pub Edits : Type 0
Edits = List (MemberKey × Edit)

pub record Store (F : Type 0) : Type 0 where
  pub moments : List (Text × Moment)
  pub members : Members F
  pub edits : Edits
  pub assets : List (Text × AssetState)

-- aliveAssetExpr
abbrev pub alive_row : Option AssetState → Bool
alive_row none = false
alive_row (some a) = a.indexed && not a.deleted && not a.offline

abbrev pub is_alive : List (Text × AssetState) → Text → Bool
is_alive assets aid = alive_row (lookup aid assets)

abbrev pub is_pin : EditOp → Bool
is_pin EditOp.pin = true
is_pin EditOp.exclude = false

-- DELETE FROM moments, with its members and edits.
abbrev pub delete_moments : {F : Type 0} → (Text → Bool) → Store F → Store F
delete_moments gone s = record s {
  moments = keep_keys (λ id. not (gone id)) s.moments;
  members = keep_keys (λ k. not (gone k.0)) s.members;
  edits = keep_keys (λ k. not (gone k.0)) s.edits;
}
