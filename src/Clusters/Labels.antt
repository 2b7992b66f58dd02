-- ===== src/Clusters/Labels.antt =====
-- Every point has a label, which is the number of a cluster that was made.
use nimo_os_photos.Prelude.{
  ℕ, subst, zero, suc, ◌<◌, ◌≡◌, refl, ap, ◌∙◌, Bool, true, false, ◌&&◌, ◌||◌, not, Option, none,
  some, List, [], ◌∷◌, ◌++◌, length, ltb, ◌==◌, ==_iff, lookup, lookup-insert, is_some, arith, inl,
  inr, Bool-cases, if◌then◌else◌,
}
use nimo_os_photos.Clusters.{
  nat_Eq, index_mem, range, region_query, State, label_if_new, more_seeds, visit, expand, set_label,
  new_point, scan, unlabelled, enough, dbscan,
}
use nimo_os_photos.Clusters.Neighbors.{index_mem-range}

-- A label, if there is one, is below the bound.
abbrev pub label_below : ℕ → Option ℕ → Bool
label_below bound none = true
label_below bound (some c) = ltb c bound

-- A visited point has a label, and its label is of a cluster made so far.
abbrev Marked : ℕ → ℕ → State → Type 0
Marked j bound st =
    ((not (index_mem j st.visited) || is_some (lookup j st.labels)) ≡ true)
    × (label_below bound (lookup j st.labels) ≡ true)

label_if_new-labels :
    (s j : ℕ) (st : State)
    → lookup j (label_if_new s st).labels ≡ (
        if s == j && not (is_some (lookup s st.labels))
        then some st.cluster_id
        else lookup j st.labels)
label_if_new-labels s j st = ground (arith, lookup-insert s j st.cluster_id st.labels)

visited-label_if_new : (s : ℕ) (st : State) → (label_if_new s st).visited ≡ st.visited
visited-label_if_new s st = ground arith

-- What the visit of a seed marks, and how it labels it.
marked : ℕ → State → State
marked s st = if index_mem s st.visited then st else record st { visited = s ∷ st.visited }

marked-labels : (s : ℕ) (st : State) → (marked s st).labels ≡ st.labels
unfolding marked
marked-labels s st = ground arith

marked-cluster : (s : ℕ) (st : State) → (marked s st).cluster_id ≡ st.cluster_id
unfolding marked
marked-cluster s st = ground arith

marked-visited :
    (s j : ℕ) (st : State) → index_mem j (marked s st).visited ≡ (s == j || index_mem j st.visited)
unfolding marked
marked-visited s j st =
    ground (arith, ==_iff s j, λ (e : s ≡ j). ap (λ i. index_mem i st.visited) e)

same_lookup : (s j : ℕ) (st : State) → (s == j) ≡ true → lookup s st.labels ≡ lookup j st.labels
same_lookup s j st h = ap (λ i. lookup i st.labels) ((==_iff s j).0 h)

label-Marked :
    (s j bound : ℕ) (st : State)
    → (not (index_mem j st.visited) || (s == j) || is_some (lookup j st.labels)) ≡ true
    → label_below bound (lookup j st.labels) ≡ true
    → st.cluster_id < bound
    → Marked j bound (label_if_new s st)
label-Marked s j bound st h k l =
    rw (visited-label_if_new s st, label_if_new-labels s j st)
      (ground (arith, same_lookup s j st), ground (arith, same_lookup s j st))

visit-Marked :
    (s j : ℕ) (st : State)
    → Marked j (suc st.cluster_id) st
    → Marked j (suc st.cluster_id) (visit s st)
unfolding marked
visit-Marked s j st h =
    label-Marked s j (suc st.cluster_id) (marked s st)
      (rw (marked-visited s j st, marked-labels s st) (ground arith)) (rw (marked-labels s st) h.1)
      (rw (marked-cluster s st) (omega arith))

visit-cluster : (s : ℕ) (st : State) → (visit s st).cluster_id ≡ st.cluster_id
visit-cluster s st = ground arith

visit-visited :
    (s j : ℕ) (st : State) → index_mem j st.visited ≡ true → index_mem j (visit s st).visited ≡ true
unfolding marked
visit-visited s j st h =
    rw (visited-label_if_new s (marked s st), marked-visited s j st) (ground arith)

expand-Marked :
    (nb : ℕ → List ℕ) (m fuel : ℕ) (seeds : List ℕ) (j : ℕ) (st : State)
    → Marked j (suc st.cluster_id) st
    → Marked j (suc st.cluster_id) (expand nb m fuel seeds st)
unfolding expand
expand-Marked nb m fuel [] j st h = h
expand-Marked nb m zero (s ∷ seeds) j st h = h
expand-Marked nb m (suc fuel) (s ∷ seeds) j st h =
    subst (λ c. Marked j (suc c) (expand nb m fuel (seeds ++ more_seeds nb m s st) (visit s st)))
      (visit-cluster s st)
      (expand-Marked nb m fuel (seeds ++ more_seeds nb m s st) j (visit s st)
        (rw (visit-cluster s st) (visit-Marked s j st h)))

expand-cluster :
    (nb : ℕ → List ℕ) (m fuel : ℕ) (seeds : List ℕ) (st : State)
    → (expand nb m fuel seeds st).cluster_id ≡ st.cluster_id
unfolding expand
expand-cluster nb m fuel [] st = refl
expand-cluster nb m zero (s ∷ seeds) st = refl
expand-cluster nb m (suc fuel) (s ∷ seeds) st =
    expand-cluster nb m fuel (seeds ++ more_seeds nb m s st) (visit s st) ∙ visit-cluster s st

expand-visited :
    (nb : ℕ → List ℕ) (m fuel : ℕ) (seeds : List ℕ) (j : ℕ) (st : State)
    → index_mem j st.visited ≡ true
    → index_mem j (expand nb m fuel seeds st).visited ≡ true
unfolding expand
expand-visited nb m fuel [] j st h = h
expand-visited nb m zero (s ∷ seeds) j st h = h
expand-visited nb m (suc fuel) (s ∷ seeds) j st h =
    expand-visited nb m fuel (seeds ++ more_seeds nb m s st) j (visit s st) (visit-visited s j st h)

-- The state in which the queue of a new point starts.
begun : ℕ → State → State
begun i st = set_label i (record st { visited = i ∷ st.visited })

begun-Marked :
    (i j : ℕ) (st : State) → Marked j st.cluster_id st → Marked j (suc st.cluster_id) (begun i st)
unfolding begun
begun-Marked i j st h = rw (lookup-insert i j st.cluster_id st.labels) (ground arith, ground arith)

if-holds {ℓ} : (P : State → Type ℓ) (b : Bool) (x y : State) → P x → P y → P (if b then x else y)
if-holds P true x y p q = p
if-holds P false x y p q = q

-- What a new point leaves: j is marked, i is visited, and j is where it was.
abbrev Grown : ℕ → ℕ → State → State → Type 0
Grown i j st z =
    Marked j (suc z.cluster_id) z
    × (index_mem i z.visited ≡ true)
    × ((not (index_mem j st.visited) || index_mem j z.visited) ≡ true)

begun-Grown : (i j : ℕ) (st : State) → Marked j st.cluster_id st → Grown i j st (begun i st)
unfolding begun
begun-Grown i j st h = (begun-Marked i j st h, ground arith, ground arith)

expanded-Grown :
    (nb : ℕ → List ℕ) (m fuel i j : ℕ) (st z : State)
    → Grown i j st z
    → Grown i j st (expand nb m fuel (nb i) z)
expanded-Grown nb m fuel i j st z h = (
  rw (expand-cluster nb m fuel (nb i) z) (expand-Marked nb m fuel (nb i) j z h.0),
  expand-visited nb m fuel (nb i) i z h.1,
  ground (arith, h.2, expand-visited nb m fuel (nb i) j z),
)

-- The state before the cluster counter is raised.
grown : (ℕ → List ℕ) → ℕ → ℕ → ℕ → State → State
grown nb m fuel i st =
    if ltb (length (nb i)) m then begun i st else expand nb m fuel (nb i) (begun i st)

grown-Grown :
    (nb : ℕ → List ℕ) (m fuel i j : ℕ) (st : State)
    → Marked j st.cluster_id st
    → Grown i j st (grown nb m fuel i st)
unfolding grown
grown-Grown nb m fuel i j st h =
    if-holds (Grown i j st) (ltb (length (nb i)) m) _ _ (begun-Grown i j st h)
      (expanded-Grown nb m fuel i j st (begun i st) (begun-Grown i j st h))

-- The state after one round of the outer loop.
stepped : (ℕ → List ℕ) → ℕ → ℕ → ℕ → State → State
stepped nb m fuel i st = if index_mem i st.visited then st else new_point nb m fuel i st

stepped-Marked :
    (nb : ℕ → List ℕ) (m fuel i j : ℕ) (st : State)
    → Marked j st.cluster_id st
    → Marked j (stepped nb m fuel i st).cluster_id (stepped nb m fuel i st)
      × (((not (i == j) && not (index_mem j st.visited))
            || index_mem j (stepped nb m fuel i st).visited)
          ≡ true)
unfolding stepped new_point grown begun
stepped-Marked nb m fuel i j st h =
    let g : Grown i j st (grown nb m fuel i st) = grown-Grown nb m fuel i j st h in
    elim (Bool-cases (index_mem i st.visited)) [
      | inl e ↦ rw e (h, ground (arith, ==_iff i j, e))
      | inr e ↦ rw e (g.0, ground (arith, ==_iff i j, g.1, g.2))
    ]

scan-Marked :
    (nb : ℕ → List ℕ) (m fuel : ℕ) (is : List ℕ) (j : ℕ) (st : State)
    → Marked j st.cluster_id st
    → Marked j (scan nb m fuel is st).cluster_id (scan nb m fuel is st)
      × ((not (index_mem j is || index_mem j st.visited)
            || index_mem j (scan nb m fuel is st).visited)
          ≡ true)
unfolding scan stepped
scan-Marked nb m fuel [] j st h = (h, ground arith)
scan-Marked nb m fuel (i ∷ is) j st h =
    let (k, v) = stepped-Marked nb m fuel i j st h in
    let (k', v') = scan-Marked nb m fuel is j (stepped nb m fuel i st) k in
    (k', ground (arith, v, v'))

-- DBSCAN gives every point a label, and each label is the number of a cluster that it made.
dbscan_labels :
    (near : ℕ → ℕ → Bool) (n min_points i : ℕ)
    → i < n
    → let st = dbscan near n min_points in
      (is_some (lookup i st.labels) ≡ true)
      × (label_below st.cluster_id (lookup i st.labels) ≡ true)
unfolding dbscan lookup
dbscan_labels near n min_points i h =
    let (k, v) =
      scan-Marked (region_query near n) min_points (enough n) (range 0 n) i unlabelled
        (refl, refl) in
    let there : index_mem i (range 0 n) ≡ true = index_mem-range i 0 n ∙ ground arith in
    (ground (arith, k.0, v, there), k.1)
