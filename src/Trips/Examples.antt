-- ===== src/Trips/Examples.antt =====
-- Three photos in two trips.
use nimo_os_photos.Prelude.{ℕ, ◌*◌, ◌≡◌, refl, true, [], ◌∷◌}
use nimo_os_photos.Trips.{split_from, split_by_gap}
use nimo_os_photos.Trips.Segments.{tiles, ends_at, last_before_gap, split_by_gap_exact}

abbrev day : ℕ
day = 86_400_000_000_000

trips_test :
    split_by_gap (0 ∷ day ∷ (9 * day) ∷ []) 3
    ≡ (record { start = 0; end = 1 } ∷ record { start = 2; end = 2 } ∷ [])
unfolding split_by_gap split_from
trips_test = refl

split_by_gap_exact_example :
    (tiles 0 3 (split_by_gap (0 ∷ day ∷ (9 * day) ∷ []) 3) ≡ true)
    × (ends_at 1 (split_by_gap (0 ∷ day ∷ (9 * day) ∷ []) 3)
        ≡ last_before_gap (3 * 86_400_000_000_000) 1 (0 ∷ day ∷ (9 * day) ∷ []))
split_by_gap_exact_example = split_by_gap_exact 0 1 3 (day ∷ (9 * day) ∷ [])
