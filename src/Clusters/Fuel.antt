-- ===== src/Clusters/Fuel.antt =====
-- The fuel of the queue is enough: the loop over the queue ends.
use nimo_os_photos.Prelude.{
  ℕ, zero, suc, ◌+◌, ◌*◌, ◌≤◌, ◌<◌, ◌≡◌, refl, ap, ◌∙◌, sym, Bool, true, false, ◌&&◌, ◌||◌, not,
  List, [], ◌∷◌, ◌++◌, keep, length, length-append, length-keep-le, ltb, ◌==◌, ==_iff, All, arith,
  inl, inr, Bool-cases, if◌then◌else◌,
}
use native.Mathlib.Nat.{suc-mul, mul-le-mul_right}
use nimo_os_photos.Clusters.{
  index_mem, range, region_query, State, more_seeds, visit, expand, queue_left, set_label,
  new_point, scan, unlabelled, enough, dbscan,
}
use nimo_os_photos.Clusters.Neighbors.{index_mem-range, All-region_query, All-keep, All-append}

length-range : (lo n : ℕ) → length (range lo n) ≡ n
unfolding range
length-range lo zero = refl
length-range lo (suc n) = ap suc (length-range (suc lo) n)

-- The points that are not visited yet.
unvisited : ℕ → List ℕ → ℕ
unvisited n visited = length (keep (λ j. not (index_mem j visited)) (range 0 n))

same_mem :
    (s i : ℕ) (visited : List ℕ) → (s == i) ≡ true → index_mem i visited ≡ index_mem s visited
same_mem s i visited h = ap (λ j. index_mem j visited) (sym ((==_iff s i).0 h))

fewer :
    (s : ℕ) (visited is : List ℕ)
    → length (keep (λ j. not (index_mem j (s ∷ visited))) is)
        + (if index_mem s is && not (index_mem s visited) then 1 else 0)
      ≤ length (keep (λ j. not (index_mem j visited)) is)
fewer s visited [] = omega arith
fewer s visited (i ∷ is) =
    ground (arith, fewer s visited is, same_mem s i visited, ==_iff s i, ==_iff i s)

unvisited-visit :
    (n s : ℕ) (visited : List ℕ)
    → s < n
    → index_mem s visited ≡ false
    → suc (unvisited n (s ∷ visited)) ≤ unvisited n visited
unfolding unvisited
unvisited-visit n s visited h k =
    let there : index_mem s (range 0 n) ≡ true = index_mem-range s 0 n ∙ ground arith in
    ground (arith, fewer s visited (range 0 n), there)

mul_up : (u v n : ℕ) → suc u ≤ v → n + u * n ≤ v * n
mul_up u v n h = omega (arith, suc-mul u n, mul-le-mul_right n h)

unvisited-le : (n : ℕ) (visited : List ℕ) → unvisited n visited ≤ n
unfolding unvisited
unvisited-le n visited =
    omega (arith, length-keep-le (λ j. not (index_mem j visited)) (range 0 n), length-range 0 n)

visited-visit :
    (s : ℕ) (st : State)
    → (visit s st).visited ≡ (if index_mem s st.visited then st.visited else s ∷ st.visited)
visited-visit s st = ground arith

module _ (near : ℕ → ℕ → Bool) (n m : ℕ) where
  nb : ℕ → List ℕ
  nb = region_query near n

  length-nb : (i : ℕ) → length (nb i) ≤ n
  unfolding nb region_query
  length-nb i =
      omega (arith, length-keep-le (λ j. not (j == i) && near i j) (range 0 n), length-range 0 n)

  more-le : (s : ℕ) (st : State) → length (more_seeds nb m s st) ≤ n
  more-le s st =
      ground (arith, length-nb s, length-keep-le (λ t. not (index_mem t (s ∷ st.visited))) (nb s))

  -- What a seed adds is paid by the point that it visits.
  paid :
      (s : ℕ) (st : State)
      → s < n
      → length (more_seeds nb m s st) + unvisited n (visit s st).visited * n
        ≤ unvisited n st.visited * n
  paid s st h = elim (Bool-cases (index_mem s st.visited)) [
    | inl e ↦ rw (visited-visit s st, e) (omega arith)
    | inr e ↦ rw (visited-visit s st ∙ ap (λ b. if b then st.visited else s ∷ st.visited) e) (
        omega (
          arith,
          more-le s st,
          mul_up (unvisited n (s ∷ st.visited)) (unvisited n st.visited) n
              (unvisited-visit n s st.visited h e),
        ))
  ]

  All-more : (s : ℕ) (st : State) → All (λ j. j < n) (more_seeds nb m s st)
  unfolding nb
  All-more s st = elim (Bool-cases (index_mem s st.visited || ltb (length (nb s)) m)) [
    | inl e ↦ rw e tt
    | inr e ↦
        rw e
          (All-keep n (λ t. not (index_mem t (s ∷ st.visited))) (nb s) (All-region_query near n s))
  ]

  expand-fuel :
      (f g : ℕ) (seeds : List ℕ) (st : State)
      → All (λ j. j < n) seeds
      → length seeds + unvisited n st.visited * n ≤ f
      → length seeds + unvisited n st.visited * n ≤ g
      → expand nb m f seeds st ≡ expand nb m g seeds st
  unfolding expand
  expand-fuel f g [] st a h k = refl
  expand-fuel zero g (s ∷ seeds) st a h k = absurd (omega (arith, h))
  expand-fuel (suc f) zero (s ∷ seeds) st a h k = absurd (omega (arith, k))
  expand-fuel (suc f) (suc g) (s ∷ seeds) st a h k =
      let more : List ℕ = more_seeds nb m s st in
      expand-fuel f g (seeds ++ more) (visit s st) (All-append n seeds more a.1 (All-more s st))
        (omega (arith, length-append seeds more, paid s st a.0, h))
        (omega (arith, length-append seeds more, paid s st a.0, k))

  queue_left-fuel :
      (f : ℕ) (seeds : List ℕ) (st : State)
      → All (λ j. j < n) seeds
      → length seeds + unvisited n st.visited * n ≤ f
      → queue_left nb m f seeds st ≡ []
  unfolding queue_left
  queue_left-fuel f [] st a h = refl
  queue_left-fuel zero (s ∷ seeds) st a h = absurd (omega (arith, h))
  queue_left-fuel (suc f) (s ∷ seeds) st a h =
      let more : List ℕ = more_seeds nb m s st in
      queue_left-fuel f (seeds ++ more) (visit s st) (All-append n seeds more a.1 (All-more s st))
        (omega (arith, length-append seeds more, paid s st a.0, h))

  queue-enough : (i : ℕ) (visited : List ℕ) → length (nb i) + unvisited n visited * n ≤ enough n
  queue-enough i visited = omega (arith, length-nb i, mul-le-mul_right n (unvisited-le n visited))

  new_point-fuel :
      (f i : ℕ) (st : State) → enough n ≤ f → new_point nb m f i st ≡ new_point nb m (enough n) i st
  unfolding new_point nb
  new_point-fuel f i st h =
      let begun : State = set_label i (record st { visited = i ∷ st.visited }) in
      let q : length (nb i) + unvisited n begun.visited * n ≤ enough n =
        queue-enough i begun.visited in
      rw (expand-fuel f (enough n) (nb i) begun (All-region_query near n i) (omega (arith, q, h)) q)
        refl

  scan-fuel :
      (f : ℕ) (is : List ℕ) (st : State)
      → enough n ≤ f
      → scan nb m f is st ≡ scan nb m (enough n) is st
  unfolding scan
  scan-fuel f [] st h = refl
  scan-fuel f (i ∷ is) st h = rw (new_point-fuel f i st h) (scan-fuel f is _ h)

-- On n points, with n + n * n rounds or more for the loop over a queue: the queue that starts with the
-- neighbours of a point is empty when the loop ends, whatever the state, and the outer loop ends in the
-- state of dbscan.
pub dbscan_terminates :
    (near : ℕ → ℕ → Bool) (n min_points rounds : ℕ)
    → enough n ≤ rounds
    → ((i : ℕ) (st : State)
        → queue_left (region_query near n) min_points rounds (region_query near n i) st ≡ [])
      × (scan (region_query near n) min_points rounds (range 0 n) unlabelled
          ≡ dbscan near n min_points)
unfolding dbscan nb
dbscan_terminates near n min_points rounds h = (
  λ i st.
      queue_left-fuel near n min_points rounds (region_query near n i) st
        (All-region_query near n i) (omega (arith, queue-enough near n min_points i st.visited, h)),
  scan-fuel near n min_points rounds (range 0 n) unlabelled h,
)
