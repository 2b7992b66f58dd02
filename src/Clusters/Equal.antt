-- ===== src/Clusters/Equal.antt =====
-- DBSCANWithProgress gives the clusters of DBSCAN.
use nimo_os_photos.Prelude.{
  ℕ, zero, suc, ◌<◌, ◌≡◌, refl, ap, ◌∙◌, Bool, ◌||◌, not, List, [], ◌∷◌, ◌++◌, length, ltb, All,
  inl, inr, Bool-cases,
}
use nimo_os_photos.Clusters.{
  index_mem, range, region_query, State, more_seeds, visit, expand, set_label, new_point, scan,
  unlabelled, enough, dbscan, build_neighbor_lists, row_of, dbscan_with_progress,
}
use nimo_os_photos.Clusters.Neighbors.{
  row_of-build_neighbor_lists, All-region_query, All-indices, All-keep, All-append,
}

module _ (n : ℕ) (f g : ℕ → List ℕ) (agree : (i : ℕ) → i < n → g i ≡ f i)
    (inside : (i : ℕ) → All (λ j. j < n) (f i)) where
  All-more_seeds : (m s : ℕ) (st : State) → All (λ j. j < n) (more_seeds f m s st)
  All-more_seeds m s st = elim (Bool-cases (index_mem s st.visited || ltb (length (f s)) m)) [
    | inl e ↦ rw e tt
    | inr e ↦ rw e (All-keep n (λ t. not (index_mem t (s ∷ st.visited))) (f s) (inside s))
  ]

  more_seeds-agree : (m s : ℕ) (st : State) → s < n → more_seeds g m s st ≡ more_seeds f m s st
  more_seeds-agree m s st h = rw (agree s h) refl

  expand-agree :
      (m fuel : ℕ) (seeds : List ℕ) (st : State)
      → All (λ j. j < n) seeds
      → expand g m fuel seeds st ≡ expand f m fuel seeds st
  unfolding expand
  expand-agree m fuel [] st h = refl
  expand-agree m zero (s ∷ seeds) st h = refl
  expand-agree m (suc fuel) (s ∷ seeds) st h =
      ap (λ more. expand g m fuel (seeds ++ more) (visit s st)) (more_seeds-agree m s st h.0)
      ∙ expand-agree m fuel (seeds ++ more_seeds f m s st) (visit s st)
          (All-append n seeds (more_seeds f m s st) h.1 (All-more_seeds m s st))

  new_point-agree :
      (m fuel i : ℕ) (st : State) → i < n → new_point g m fuel i st ≡ new_point f m fuel i st
  unfolding new_point
  new_point-agree m fuel i st h =
      rw
        (
          agree i h,
          expand-agree m fuel (f i) (set_label i (record st { visited = i ∷ st.visited }))
              (inside i),
        )
        refl

  pub scan-agree :
      (m fuel : ℕ) (is : List ℕ) (st : State)
      → All (λ j. j < n) is
      → scan g m fuel is st ≡ scan f m fuel is st
  unfolding scan
  scan-agree m fuel [] st h = refl
  scan-agree m fuel (i ∷ is) st h =
      rw (new_point-agree m fuel i st h.0) (scan-agree m fuel is _ h.1)

-- On any number of CPUs, DBSCANWithProgress visits the same points and gives each the same label as
-- DBSCAN, and makes as many clusters.
pub dbscan_with_progress_lem :
    (near : ℕ → ℕ → Bool) (n min_points cpus : ℕ)
    → dbscan_with_progress near n min_points cpus ≡ dbscan near n min_points
unfolding dbscan_with_progress dbscan
dbscan_with_progress_lem near n min_points cpus =
    scan-agree n (region_query near n) (row_of (build_neighbor_lists near n cpus))
      (λ i h. row_of-build_neighbor_lists near n cpus i h) (λ i. All-region_query near n i)
      min_points (enough n) (range 0 n) unlabelled (All-indices n)
