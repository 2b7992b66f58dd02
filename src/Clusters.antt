-- ===== src/Clusters.antt =====
-- service/faces.go: DBSCAN over face vectors, and DBSCANWithProgress, which precomputes the neighbour
-- lists by rows on several workers. Vectors are given by their indices, and whether the cosine distance
-- of two is within epsilon by a test. The slice visited is the list of the indices that are true, and
-- labels the entries that are not -1. Progress reports are left out.
pub mod Neighbors
pub mod Equal
pub mod Labels
pub mod Fuel
pub mod Workers
mod Examples
use nimo_os_photos.Prelude.{
  ℕ, zero, suc, ◌+◌, ◌-◌, ◌*◌, ◌/◌, Bool, true, false, ◌&&◌, ◌||◌, not, Option, none, some, List,
  [], ◌∷◌, ◌++◌, keep, any, length, ltb, ◌==◌, ==_iff, Eq, lookup, insert, min, or_else, is_some,
  if◌then◌else◌,
}

instance abbrev pub nat_Eq : Eq ℕ
nat_Eq = record { beq = ◌==◌; beq_iff = ==_iff }

abbrev pub index_mem : ℕ → List ℕ → Bool
index_mem i is = any (λ j. j == i) is

-- The indices from the first on, so many.
unfoldable pub range : ℕ → ℕ → List ℕ
range i zero = []
range i (suc n) = i ∷ range (suc i) n

unfoldable pub region_query : (ℕ → ℕ → Bool) → ℕ → ℕ → List ℕ
region_query near n idx = keep (λ j. not (j == idx) && near idx j) (range 0 n)

pub record State : Type 0 where
  pub visited : List ℕ
  pub labels : List (ℕ × ℕ)
  pub cluster_id : ℕ

-- labels[s] = clusterID, where it is -1.
abbrev pub label_if_new : ℕ → State → State
label_if_new s st =
    if is_some (lookup s st.labels)
    then st
    else record st { labels = insert s st.cluster_id st.labels }

-- What one seed adds to the queue.
abbrev pub more_seeds : (ℕ → List ℕ) → ℕ → ℕ → State → List ℕ
more_seeds nb min_points s st =
    let found = nb s in
    if index_mem s st.visited || ltb (length found) min_points
    then []
    else keep (λ t. not (index_mem t (s ∷ st.visited))) found

abbrev pub visit : ℕ → State → State
visit s st =
    label_if_new s (if index_mem s st.visited then st else record st { visited = s ∷ st.visited })

-- The loop over the queue of seeds; the fuel bounds its rounds.
unfoldable pub expand : (ℕ → List ℕ) → ℕ → ℕ → List ℕ → State → State
expand nb min_points fuel [] st = st
expand nb min_points zero (s ∷ seeds) st = st
expand nb min_points (suc fuel) (s ∷ seeds) st =
    expand nb min_points fuel (seeds ++ more_seeds nb min_points s st) (visit s st)

-- What is left of the queue when the loop over it ends.
unfoldable pub queue_left : (ℕ → List ℕ) → ℕ → ℕ → List ℕ → State → List ℕ
queue_left nb min_points fuel [] st = []
queue_left nb min_points zero (s ∷ seeds) st = s ∷ seeds
queue_left nb min_points (suc fuel) (s ∷ seeds) st =
    queue_left nb min_points fuel (seeds ++ more_seeds nb min_points s st) (visit s st)

abbrev pub set_label : ℕ → State → State
set_label i st = record st { labels = insert i st.cluster_id st.labels }

abbrev pub next_cluster : State → State
next_cluster st = record st { cluster_id = suc st.cluster_id }

-- A point that is not visited yet.
unfoldable pub new_point : (ℕ → List ℕ) → ℕ → ℕ → ℕ → State → State
new_point nb min_points fuel i st =
    let seeds = nb i in
    let labelled = set_label i (record st { visited = i ∷ st.visited }) in
    next_cluster
      (if ltb (length seeds) min_points then labelled else expand nb min_points fuel seeds labelled)

-- The outer loop over the points.
unfoldable pub scan : (ℕ → List ℕ) → ℕ → ℕ → List ℕ → State → State
scan nb min_points fuel [] st = st
scan nb min_points fuel (i ∷ is) st =
    scan nb min_points fuel is
      (if index_mem i st.visited then st else new_point nb min_points fuel i st)

abbrev pub unlabelled : State
unlabelled = record { visited = []; labels = []; cluster_id = 0 }

-- The queue takes at most the neighbours of the point, and those of each point once.
abbrev pub enough : ℕ → ℕ
enough n = n + n * n

unfoldable pub dbscan : (ℕ → ℕ → Bool) → ℕ → ℕ → State
dbscan near n min_points = scan (region_query near n) min_points (enough n) (range 0 n) unlabelled

-- out[i] = neighbors for the rows of one worker.
unfoldable pub write_rows : (ℕ → ℕ → Bool) → ℕ → List ℕ → List (ℕ × List ℕ) → List (ℕ × List ℕ)
write_rows near n [] out = out
write_rows near n (i ∷ is) out = write_rows near n is (insert i (region_query near n i) out)

-- The rows lo to hi of a worker, if there are any.
abbrev pub worker_rows : ℕ → ℕ → ℕ → List ℕ
worker_rows n rows_per_worker w =
    let lo = w * rows_per_worker in let hi = min (lo + rows_per_worker) n in range lo (hi - lo)

-- The workers, each on its own rows; the last one writes first.
unfoldable pub run_workers : (ℕ → ℕ → Bool) → ℕ → ℕ → ℕ → List (ℕ × List ℕ)
run_workers near n rows_per_worker zero = []
run_workers near n rows_per_worker (suc w) =
    write_rows near n (worker_rows n rows_per_worker w) (run_workers near n rows_per_worker w)

abbrev pub at_least_one : ℕ → ℕ
at_least_one w = if ltb w 1 then 1 else w

abbrev pub worker_count : ℕ → ℕ → ℕ
worker_count n cpus = at_least_one (min cpus n)

abbrev pub row_count : ℕ → ℕ → ℕ
row_count n workers = (n + workers - 1) / workers

-- The number of CPUs is an argument.
unfoldable pub build_neighbor_lists : (ℕ → ℕ → Bool) → ℕ → ℕ → List (ℕ × List ℕ)
build_neighbor_lists near n cpus =
    let workers = worker_count n cpus in run_workers near n (row_count n workers) workers

-- neighborLists[i], which is nil where no row was written.
abbrev pub row_or_nil : Option (List ℕ) → List ℕ
row_or_nil none = []
row_or_nil (some neighbors) = neighbors

abbrev pub row_of : List (ℕ × List ℕ) → ℕ → List ℕ
row_of out i = row_or_nil (lookup i out)

unfoldable pub dbscan_with_progress : (ℕ → ℕ → Bool) → ℕ → ℕ → ℕ → State
dbscan_with_progress near n min_points cpus =
    scan (row_of (build_neighbor_lists near n cpus)) min_points (enough n) (range 0 n) unlabelled
