-- ===== src/Marks.antt =====
-- What a user marks on assets: service/favorites.go (Favorite, Unfavorite, ListIDs, IsFavorited) and
-- service/views.go. The tables asset_favorites and asset_views are keyed by the user and the asset. A
-- statement that the database refuses is not modelled, and List and Top, which join the columns of
-- other tables for display, are left out.
pub mod Laws
mod Examples
use nimo_os_photos.Prelude.{
  ℕ, suc, ◌+◌, Bool, true, false, ◌&&◌, Option, none, some, List, [], ◌∷◌, map, Text, text_eq,
  pair_Eq, lookup, insert, delete, keep, is_some, ltb, if◌then◌else◌,
}
use nimo_os_photos.Assets.{Table, row_of}

-- The user and the asset.
abbrev pub Key : Type 0
Key = Text × Text

abbrev pub Favorites : Type 0
Favorites = List (Key × ℕ)

-- The time that is read back; `none` is ErrNotFound. ON CONFLICT DO NOTHING.
pub favorite : ℕ → Text → Text → Table → Favorites → Favorites × Option ℕ
favorite now user_id asset_id t favs =
    let kept =
      if is_some (lookup (user_id, asset_id) favs)
      then favs
      else insert (user_id, asset_id) now favs in
    if is_some (row_of asset_id t) then (kept, lookup (user_id, asset_id) kept) else (favs, none)

pub unfavorite : Text → Text → Favorites → Favorites
unfavorite user_id asset_id favs = delete (user_id, asset_id) favs

pub is_favorited : Text → Text → Favorites → Bool
is_favorited user_id asset_id favs = is_some (lookup (user_id, asset_id) favs)

-- A favorite in its place by its time, the newest first.
by_time : Key × ℕ → Favorites → Favorites
by_time f [] = f ∷ []
by_time f (g ∷ gs) = let later = by_time f gs in if ltb f.1 g.1 then g ∷ later else f ∷ g ∷ gs

newest_first : Favorites → Favorites
newest_first [] = []
newest_first (f ∷ fs) = by_time f (newest_first fs)

pub list_ids : Text → Favorites → List Text
list_ids user_id favs = map (λ f. f.0.1) (newest_first (keep (λ f. text_eq f.0.0 user_id) favs))

pub record Views : Type 0 where
  pub view_count : ℕ
  pub last_viewed_at : ℕ

viewed : ℕ → Option Views → Views
viewed now none = record { view_count = 1; last_viewed_at = now }
viewed now (some v) = record { view_count = v.view_count + 1; last_viewed_at = now }

-- The flag is whether the asset exists; if not, the answer is ErrNotFound.
pub record_view : ℕ → Text → Text → Table → List (Key × Views) → List (Key × Views) × Bool
record_view now user_id asset_id t views =
    if is_some (row_of asset_id t)
    then (insert (user_id, asset_id) (viewed now (lookup (user_id, asset_id) views)) views, true)
    else (views, false)

count_of : Option Views → ℕ
count_of none = 0
count_of (some v) = v.view_count

pub count : Text → Text → List (Key × Views) → ℕ
count user_id asset_id views = count_of (lookup (user_id, asset_id) views)
