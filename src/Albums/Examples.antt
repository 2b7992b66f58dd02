-- ===== src/Albums/Examples.antt =====
-- Tests of the albums on two of them, and instances of the theorems on these.
use nimo_os_photos.Prelude.{
  ◌≡◌, ◌≢◌, refl, true, none, [], ◌∷◌, ◌⊎◌, text, text_Eq, pair_Eq, text_eq, text_mem, lookup,
}
use nimo_os_photos.Albums.{trim_left, trim_right, Albums, ok, reorder_assets, trim_space}
use nimo_os_photos.Albums.Names.{
  UniqueNames, create_edit, name_edit, run_edits, run_edits-UniqueNames,
}
use nimo_os_photos.Albums.Order.{place, reorder_assets_positions}

abbrev empty_albums : Albums
empty_albums = record { albums = []; members = [] }

abbrev two : Albums
two = record {
  albums =
      (text "x", record { name = text "Sea"; cover_asset_id = none })
      ∷ (text "y", record { name = text "Sky"; cover_asset_id = none })
      ∷ [];
  members = ((text "x", text "a"), 0) ∷ ((text "x", text "b"), 1) ∷ ((text "y", text "a"), 0) ∷ [];
}

trim_test : trim_space (text "  Sea side ") ≡ text "Sea side"
unfolding trim_space trim_left trim_right
trim_test = refl

no_albums-UniqueNames : UniqueNames []
unfolding lookup
no_albums-UniqueNames n j k p q = absurd (cc p)

run_edits-UniqueNames_example :
    UniqueNames
      (run_edits
        (λ a. true)
        (create_edit (text "x") (text "Sea")
          ∷ create_edit (text "y") (text " Sea")
          ∷ name_edit (text "x") (text "Sky")
          ∷ [])
        empty_albums).albums
run_edits-UniqueNames_example =
    run_edits-UniqueNames (λ a. true)
      (create_edit (text "x") (text "Sea")
        ∷ create_edit (text "y") (text " Sea")
        ∷ name_edit (text "x") (text "Sky")
        ∷ [])
      empty_albums no_albums-UniqueNames

reorder_assets_positions_example :
    let (s', res) = reorder_assets (text "x") (text "b" ∷ text "a" ∷ []) two in
    ((res ≡ ok)
      × (lookup (text "x", text "a") s'.members ≡ place (text "a") 0 (text "b" ∷ text "a" ∷ []))
      × (lookup (text "y", text "a") s'.members ≡ lookup (text "y", text "a") two.members))
    ⊎ ((res ≢ ok) × (s' ≡ two))
unfolding text_mem text_eq
reorder_assets_positions_example =
    reorder_assets_positions (text "x") (text "y") (text "a") (text "b" ∷ text "a" ∷ []) two refl
      refl
