-- ===== src/Marks/Examples.antt =====
-- Instances of the theorems on one asset and one user.
use nimo_os_photos.Prelude.{ℕ, false, none, List, [], ◌∷◌, text, pair_Eq}
use nimo_os_photos.Assets.{Table}
use nimo_os_photos.Marks.{Key, Favorites}

abbrev table : Table
table =
    (record {
      id = text "a";
      file_path = text "/g/p.jpg";
      original_path = none;
      deleted_at = none;
      live_photo_video_id = none;
      is_live_photo_video = false;
      offline = false;
    })
    ∷ []

abbrev favs : Favorites
favs = ((text "u", text "a"), 3) ∷ []

abbrev calls : List (Key × ℕ)
calls = ((text "u", text "a"), 1) ∷ ((text "v", text "a"), 2) ∷ ((text "u", text "a"), 3) ∷ []
