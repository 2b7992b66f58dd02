-- ===== src/Persons/Choice.antt =====
-- The cover that is chosen is one of the faces, so the recompute never indexes outside its slices.
use nimo_os_photos.Prelude.{
  ℕ, zero, suc, ◌+◌, ◌≤◌, ◌<◌, ◌≡◌, refl, ap, ◌∙◌, Bool, true, false, Option, none, some, List, [],
  ◌∷◌, Text, text_Eq, keep, length, lookup, get_elem?, Float64, is_some, arith, inl, inr,
  Bool-cases, if◌then◌else◌,
}
use nimo_os_photos.Persons.Rows.{Face, Person, Store, Measures, active, exists, update}
use nimo_os_photos.Persons.Cover.{
  best_hybrid, nearest, minus_one, select_cover_face, covered, face_at, recomputed, recompute_found,
  recompute_faces, recompute_one_centroid, measured, keeps_cover, cleared, reselect,
}

get_elem?-lt {ℓ} :
    {A : Type ℓ} (xs : List A) (i : ℕ) → i < length xs → (x : A) × (get_elem? xs i ≡ some x)
get_elem?-lt [] i h = absurd (omega (arith, h))
get_elem?-lt (x ∷ xs) zero h = (x, refl)
get_elem?-lt (x ∷ xs) (suc i) h = get_elem?-lt xs i (omega (arith, h))

module _ (r : Float64) (m : Measures r.F) where
  -- The best index so far is below the bound, or there is none and its score is -1.
  abbrev Below : ℕ → Option ℕ × r.F → Type 0
  Below n (none, score) = score ≡ minus_one r m
  Below n (some k, score) = k < n

  Below-le : (i n : ℕ) (acc : Option ℕ × r.F) → i ≤ n → Below i acc → Below n acc
  Below-le i n (none, score) k h = h
  Below-le i n (some b, score) k h = omega (arith, h, k)

  Below-if :
      (b : Bool) (n : ℕ) (x y : Option ℕ × r.F)
      → Below n x
      → Below n y
      → Below n (if b then x else y)
  Below-if true n x y p q = p
  Below-if false n x y p q = q

  best_hybrid-Below :
      (i n : ℕ) (acc : Option ℕ × r.F) (fs : List Face)
      → length fs + i ≤ n
      → Below i acc
      → Below n (best_hybrid r m i acc fs)
  unfolding best_hybrid
  best_hybrid-Below i n (best, score) [] k h = Below-le i n (best, score) (omega (arith, k)) h
  best_hybrid-Below i n (best, score) (f ∷ fs) k h =
      best_hybrid-Below (suc i) n _ fs (omega (arith, k)) (
        Below-if (r.lt score (m.hybrid_cover_score f)) (suc i) _ _ (omega arith)
          (Below-le i (suc i) (best, score) (omega arith) h))

  nearest-lt :
      (i n : ℕ) (acc : ℕ × r.F) (c : List r.F) (fs : List Face)
      → acc.0 < n
      → length fs + i ≤ n
      → (nearest r m i acc c fs).0 < n
  unfolding nearest
  nearest-lt i n (best, dist) c [] h k = h
  nearest-lt i n (best, dist) c (f ∷ fs) h k =
      nearest-lt (suc i) n _ c fs (ground (arith, h, k)) (omega (arith, k))

  -- What the choice between the two searches gives.
  chosen :
      (d n : ℕ) (acc : Option ℕ × r.F)
      → Below n acc
      → r.lt (minus_one r m) (r.lit 0 1) ≡ true
      → d < n
      → (k : ℕ) × ((if r.lt acc.1 (r.lit 0 1) then some d else acc.0) ≡ some k) × (k < n)
  chosen d n (none, score) b h l = (d, rw (b, h), l)
  chosen d n (some k, score) b h l = elim (Bool-cases (r.lt score (r.lit 0 1))) [
    | inl e ↦ (d, rw e, l)
    | inr e ↦ (k, rw e, b)
  ]

  select_cover_face_bounds :
      (f : Face) (fs : List Face) (c : List r.F)
      → r.lt (minus_one r m) (r.lit 0 1) ≡ true
      → (k : ℕ) × (select_cover_face r m (f ∷ fs) c ≡ some k) × (k < length (f ∷ fs))
  unfolding select_cover_face
  select_cover_face_bounds f fs c h =
      chosen (nearest r m 0 (0, r.lit 2 1) c (f ∷ fs)).0 (length (f ∷ fs))
        (best_hybrid r m 0 (none, minus_one r m) (f ∷ fs))
        (best_hybrid-Below 0 (length (f ∷ fs)) (none, minus_one r m) (f ∷ fs) (omega arith) refl) h
        (nearest-lt 0 (length (f ∷ fs)) (0, r.lit 2 1) c (f ∷ fs) (omega arith) (omega arith))

  recomputed-some :
      (f : Face) (fs : List Face) (p : Person r.F)
      → r.lt (minus_one r m) (r.lit 0 1) ≡ true
      → (p' : Person r.F) × (recomputed r m (f ∷ fs) p ≡ some p')
  recomputed-some f fs p h =
      let c : List r.F = m.compute_centroid (f ∷ fs) in
      let (k, e, l) = select_cover_face_bounds f fs c h in
      let (g, d) = get_elem?-lt (f ∷ fs) k l in
      elim (Bool-cases (keeps_cover r m (f ∷ fs) p)) [
        | inl b ↦ (measured r m (f ∷ fs) p, rw b)
        | inr b ↦ (
          covered r m (f ∷ fs) g p,
          rw b (
              ap (λ o. reselect r m (f ∷ fs) (face_at r m (f ∷ fs) o) p) e
              ∙ ap (λ o. reselect r m (f ∷ fs) o p) d),
        )
      ]

  recompute_found-some :
      (id : Text) (f : Face) (fs : List Face) (o : Option (Person r.F)) (s : Store r.F)
      → r.lt (minus_one r m) (r.lit 0 1) ≡ true
      → is_some o ≡ true
      → (s' : Store r.F) × (recompute_found r m id (f ∷ fs) o s ≡ some s')
  recompute_found-some id f fs none s h k = absurd (cc)
  recompute_found-some id f fs (some p) s h k =
      let (p', e) = recomputed-some f fs p h in (update id (λ _. p') s, rw e)

  recompute_faces-some :
      (id : Text) (fs : List Face) (s : Store r.F)
      → r.lt (minus_one r m) (r.lit 0 1) ≡ true
      → exists id s ≡ true
      → (s' : Store r.F) × (recompute_faces r m id fs s ≡ some s')
  recompute_faces-some id [] s h k = (update id (cleared r m) s, refl)
  recompute_faces-some id (f ∷ fs) s h k = recompute_found-some id f fs (lookup id s.persons) s h k

  -- Where -1 is below 0 and no statement fails, recomputeOneCentroidTx of a person that exists succeeds:
  -- whatever the faces, their measures and the cover, no index is outside its slice.
  pub recompute_total :
      (id : Text) (s : Store r.F)
      → r.lt (minus_one r m) (r.lit 0 1) ≡ true
      → exists id s ≡ true
      → (s' : Store r.F) × (recompute_one_centroid r m false id s ≡ some s')
  unfolding recompute_one_centroid
  recompute_total id s h k = recompute_faces-some id (keep (active id) s.faces) s h k
