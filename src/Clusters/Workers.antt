-- ===== src/Clusters/Workers.antt =====
-- The workers of buildNeighborLists in any order.
use nimo_os_photos.Prelude.{
  ℕ, zero, suc, ◌+◌, ◌-◌, ◌*◌, ◌/◌, ◌≤◌, ◌<◌, ◌≡◌, ap, ◌∙◌, Bool, true, some, none, List, [],
  lookup, min, arith, if◌then◌else◌,
}
use native.Mathlib.Nat.{div-add-mod', mod-lt, mul-zero, lt_of_mul-lt-mul_right}
use nimo_os_photos.Clusters.{
  nat_Eq, index_mem, range, region_query, write_rows, worker_rows, worker_count, row_count,
  unlabelled, enough, scan, dbscan, row_of, row_or_nil,
}
use nimo_os_photos.Clusters.Neighbors.{
  index_mem-range, lookup-write_rows, enough_rows, All-region_query, All-indices,
}
use nimo_os_photos.Clusters.Equal.{scan-agree}

-- The worker that has row i.
worker_of :
    (n r w i : ℕ) → i < n → n ≤ w * r → (i / r < w) × (index_mem i (worker_rows n r (i / r)) ≡ true)
worker_of n zero w i h k = absurd (omega (arith, mul-zero w, h, k))
worker_of n (suc r) w i h k =
    let row : (i / suc r) * suc r ≤ i = omega (arith, div-add-mod' i (suc r)) in
    let last : i < (i / suc r) * suc r + suc r =
      omega (arith, div-add-mod' i (suc r), mod-lt i {m = suc r} (omega arith)) in
    let early : i / suc r < w = lt_of_mul-lt-mul_right (suc r) (omega (arith, row, h, k)) in
    (
      early,
      index_mem-range i ((i / suc r) * suc r)
            (min ((i / suc r) * suc r + suc r) n - (i / suc r) * suc r)
          ∙ ground (arith, row, last, h),
    )

-- The workers may write in any order: for a list in which each row of each worker stands, the outer loop
-- on the neighbour lists that writing the rows in its order leaves ends in the state of DBSCAN.
any_order :
    (near : ℕ → ℕ → Bool) (n min_points cpus : ℕ) (order : List ℕ)
    → ((w i : ℕ)
        → w < worker_count n cpus
        → index_mem i (worker_rows n (row_count n (worker_count n cpus)) w) ≡ true
        → index_mem i order ≡ true)
    → scan (row_of (write_rows near n order [])) min_points (enough n) (range 0 n) unlabelled
      ≡ dbscan near n min_points
unfolding dbscan lookup
any_order near n min_points cpus order h =
    let workers : ℕ = worker_count n cpus in
    let r : ℕ = row_count n workers in
    let rows : n ≤ workers * r = enough_rows n workers (ground arith) in
    scan-agree n (region_query near n) (row_of (write_rows near n order []))
      (λ i k.
        let (early, there) = worker_of n r workers i k rows in
        ap row_or_nil (
          lookup-write_rows near n i order []
          ∙ ap (λ b. if b then some (region_query near n i) else none) (h (i / r) i early there)))
      (λ i. All-region_query near n i) min_points (enough n) (range 0 n) unlabelled (All-indices n)
