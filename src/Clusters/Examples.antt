-- ===== src/Clusters/Examples.antt =====
-- Clusterings of three points, of which the first two are near each other.
use nimo_os_photos.Prelude.{
  ℕ, zero, suc, ◌<◌, ◌≡◌, refl, Bool, true, ◌&&◌, [], ◌∷◌, ltb, lookup, insert, arith,
}
use nimo_os_photos.Clusters.{
  nat_Eq, index_mem, worker_count, row_count, worker_rows, State, range, queue_left, region_query,
  expand, new_point, scan, unlabelled, dbscan, dbscan_with_progress,
}
use nimo_os_photos.Clusters.Equal.{dbscan_with_progress_lem}
use nimo_os_photos.Clusters.Fuel.{dbscan_terminates}

abbrev both_low : ℕ → ℕ → Bool
both_low i j = ltb i 2 && ltb j 2

abbrev labels_of_three : State
labels_of_three = record {
  visited = 2 ∷ 1 ∷ 0 ∷ [];
  labels = (0, 0) ∷ (1, 0) ∷ (2, 1) ∷ [];
  cluster_id = 2;
}

dbscan_run : dbscan both_low 3 1 ≡ labels_of_three
unfolding dbscan scan range new_point region_query expand lookup insert
dbscan_run = refl

dbscan_with_progress_lem_example : dbscan_with_progress both_low 3 1 2 ≡ dbscan both_low 3 1
dbscan_with_progress_lem_example = dbscan_with_progress_lem both_low 3 1 2

dbscan_terminates_example :
    ((i : ℕ) (st : State)
      → queue_left (region_query both_low 3) 1 12 (region_query both_low 3 i) st ≡ [])
    × (scan (region_query both_low 3) 1 12 (range 0 3) unlabelled ≡ dbscan both_low 3 1)
dbscan_terminates_example = dbscan_terminates both_low 3 1 12 (omega arith)

-- Two workers on three rows, which are written last row first.
rows_written :
    (w i : ℕ)
    → w < worker_count 3 2
    → index_mem i (worker_rows 3 (row_count 3 (worker_count 3 2)) w) ≡ true
    → index_mem i (2 ∷ 1 ∷ 0 ∷ []) ≡ true
unfolding range
rows_written zero i h k = ground arith
rows_written (suc zero) i h k = ground arith
rows_written (suc (suc w)) i h k = absurd (omega (arith, h))
