-- ===== src/Clusters/Neighbors.antt =====
-- The rows that the workers of buildNeighborLists write are all of them.
use nimo_os_photos.Prelude.{
  All, keep, not, inl, inr, Bool-cases, ◌++◌, ℕ, zero, suc, ◌+◌, ◌-◌, ◌*◌, ◌/◌, ◌≤◌, ◌<◌, ◌≡◌, refl,
  ap, ◌∙◌, Bool, true, ◌&&◌, none, some, List, [], ◌∷◌, leb, ltb, ◌==◌, ==_iff, lookup, insert,
  lookup-insert, min, arith, if◌then◌else◌,
}
use native.Mathlib.Nat.{div-add-mod, mod-lt, suc-mul, zero-mul}
use nimo_os_photos.Clusters.{
  nat_Eq, index_mem, range, region_query, write_rows, worker_rows, run_workers, at_least_one,
  build_neighbor_lists, row_of, row_or_nil,
}

pub index_mem-range : (i lo k : ℕ) → index_mem i (range lo k) ≡ (leb lo i && ltb i (lo + k))
unfolding range
index_mem-range i lo zero = ground arith
index_mem-range i lo (suc k) = ground (arith, index_mem-range i (suc lo) k)

pub lookup-write_rows :
    (near : ℕ → ℕ → Bool) (n i : ℕ) (is : List ℕ) (out : List (ℕ × List ℕ))
    → lookup i (write_rows near n is out)
      ≡ (if index_mem i is then some (region_query near n i) else lookup i out)
unfolding write_rows
lookup-write_rows near n i [] out = refl
lookup-write_rows near n i (j ∷ is) out = ground (
  arith,
  lookup-write_rows near n i is (insert j (region_query near n j) out),
  lookup-insert j i (region_query near n j) out,
  ==_iff j i,
)

lookup-run_workers :
    (near : ℕ → ℕ → Bool) (n r w i : ℕ)
    → lookup i (run_workers near n r w)
      ≡ (if ltb i (min (w * r) n) then some (region_query near n i) else none)
unfolding run_workers lookup
lookup-run_workers near n r zero i = ground (arith, zero-mul r)
lookup-run_workers near n r (suc w) i =
    lookup-write_rows near n i (worker_rows n r w) (run_workers near n r w)
    ∙ rw (lookup-run_workers near n r w i, index_mem-range) (ground (arith, suc-mul w r))

pub enough_rows : (n w : ℕ) → 1 ≤ w → n ≤ w * ((n + w - 1) / w)
enough_rows n w h =
    let positive : 0 < w = omega arith in
    omega (arith, div-add-mod (n + w - 1) w, mod-lt (n + w - 1) positive)

-- Each row of the neighbour lists is the region query of its point, on any number of workers.
pub row_of-build_neighbor_lists :
    (near : ℕ → ℕ → Bool) (n cpus i : ℕ)
    → i < n
    → row_of (build_neighbor_lists near n cpus) i ≡ region_query near n i
unfolding build_neighbor_lists
row_of-build_neighbor_lists near n cpus i h =
    let w : ℕ = at_least_one (min cpus n) in
    let r : ℕ = (n + w - 1) / w in
    let rows : n ≤ w * r = enough_rows n w (ground arith) in
    let inside : ltb i (min (w * r) n) ≡ true = ground (arith, rows) in
    ap row_or_nil (lookup-run_workers near n r w i) ∙ rw inside refl

pub All-keep :
    (n : ℕ) (p : ℕ → Bool) (is : List ℕ) → All (λ i. i < n) is → All (λ i. i < n) (keep p is)
All-keep n p [] h = tt
All-keep n p (i ∷ is) h = elim (Bool-cases (p i)) [
  | inl e ↦ rw e (h.0, All-keep n p is h.1)
  | inr e ↦ rw e (All-keep n p is h.1)
]

All-range : (n lo k : ℕ) → lo + k ≤ n → All (λ i. i < n) (range lo k)
unfolding range
All-range n lo zero h = tt
All-range n lo (suc k) h = (omega arith, All-range n (suc lo) k (omega arith))

pub All-region_query : (near : ℕ → ℕ → Bool) (n i : ℕ) → All (λ j. j < n) (region_query near n i)
unfolding region_query
All-region_query near n i =
    All-keep n (λ j. not (j == i) && near i j) (range 0 n) (All-range n 0 n (omega arith))

pub All-indices : (n : ℕ) → All (λ i. i < n) (range 0 n)
All-indices n = All-range n 0 n (omega arith)

pub All-append :
    (n : ℕ) (is js : List ℕ)
    → All (λ i. i < n) is
    → All (λ i. i < n) js
    → All (λ i. i < n) (is ++ js)
All-append n [] js h k = k
All-append n (i ∷ is) js h k = (h.0, All-append n is js h.1 k)
