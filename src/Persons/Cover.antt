-- ===== src/Persons/Cover.antt =====
-- service/persons.go: selectCoverFace and recomputeOneCentroidTx.
use nimo_os_photos.Prelude.{
  ℕ, suc, Bool, false, ◌&&◌, not, Option, none, some, List, [], ◌∷◌, Text, text_Eq, text_eq,
  is_empty, keep, any, lookup, get_elem?, Float64, ◌>>=◌, if◌then◌else◌,
}
use nimo_os_photos.Persons.Rows.{Face, Person, Store, Measures, active, update}

-- A column that is neither NULL nor the empty text.
abbrev pub given : Option Text → Bool
given none = false
given (some t) = not (is_empty t)

abbrev pub is_face : Option Text → Face → Bool
is_face none f = false
is_face (some c) f = text_eq f.id c

module _ (r : Float64) (m : Measures r.F) where
  -- The first face with the highest score above that of the start; none is the index -1.
  unfoldable pub best_hybrid : ℕ → Option ℕ × r.F → List Face → Option ℕ × r.F
  best_hybrid i (best, score) [] = (best, score)
  best_hybrid i (best, score) (f ∷ fs) =
      let h = m.hybrid_cover_score f in
      best_hybrid (suc i) (if r.lt score h then (some i, h) else (best, score)) fs

  unfoldable pub nearest : ℕ → ℕ × r.F → List r.F → List Face → ℕ × r.F
  nearest i (best, dist) c [] = (best, dist)
  nearest i (best, dist) c (f ∷ fs) =
      let d = m.cos_dist f c in nearest (suc i) (if r.lt d dist then (i, d) else (best, dist)) c fs

  abbrev pub minus_one : r.F
  minus_one = r.minus (r.lit 0 1) (r.lit 1 1)

  unfoldable pub select_cover_face : List Face → List r.F → Option ℕ
  select_cover_face fs c =
      let (best, score) = best_hybrid 0 (none, minus_one) fs in
      if r.lt score (r.lit 0 1) then some (nearest 0 (0, r.lit 2 1) c fs).0 else best

  abbrev pub cleared : Person r.F → Person r.F
  cleared p = record p {
    cover_face_id = none;
    cover_asset_id = none;
    cover_locked = false;
    hero_asset_id = none;
    centroid = none;
    confidence = r.lit 0 1;
  }

  abbrev pub measured : List Face → Person r.F → Person r.F
  measured fs p =
      let c = m.compute_centroid fs in
      record p { centroid = some c; confidence = m.cluster_confidence fs c }

  -- The cover is locked and still one of the faces.
  abbrev pub keeps_cover : List Face → Person r.F → Bool
  keeps_cover fs p = p.cover_locked && given p.cover_face_id && any (is_face p.cover_face_id) fs

  abbrev pub covered : List Face → Face → Person r.F → Person r.F
  covered fs f p = record (measured fs p) {
    cover_face_id = some f.id;
    cover_asset_id = some f.asset_id;
    cover_locked = p.cover_locked && not (given p.cover_face_id);
  }

  -- faceIDs[best], which panics outside the slice.
  abbrev pub face_at : List Face → Option ℕ → Option Face
  face_at fs none = none
  face_at fs (some i) = get_elem? fs i

  abbrev pub reselect : List Face → Option Face → Person r.F → Option (Person r.F)
  reselect fs none p = none
  reselect fs (some f) p = some (covered fs f p)

  abbrev pub recomputed : List Face → Person r.F → Option (Person r.F)
  recomputed fs p =
      if keeps_cover fs p
      then some (measured fs p)
      else reselect fs (face_at fs (select_cover_face fs (m.compute_centroid fs))) p

  abbrev pub recompute_found :
      Text → List Face → Option (Person r.F) → Store r.F → Option (Store r.F)
  recompute_found id fs none s = none
  recompute_found id fs (some p) s = do p' ← recomputed fs p; some (update id (λ _. p') s)

  abbrev pub recompute_faces : Text → List Face → Store r.F → Option (Store r.F)
  recompute_faces id [] s = some (update id cleared s)
  recompute_faces id (f ∷ fs) s = recompute_found id (f ∷ fs) (lookup id s.persons) s

  unfoldable pub recompute_one_centroid : Bool → Text → Store r.F → Option (Store r.F)
  recompute_one_centroid fault id s =
      if fault then none else recompute_faces id (keep (active id) s.faces) s
