-- ===== src/Persons/OneRow.antt =====
-- What a recompute of one person does to its row and to the others.
use nimo_os_photos.Prelude.{
  ◌≡◌, refl, ap, sym, subst, ◌∙◌, Bool, true, false, Option, none, some, List, [], ◌∷◌, Text,
  text_Eq, text_eq, text_eq_iff, keep, lookup, lookup-alter, Float64, >>=-eq-some, inl, inr,
  Bool-cases,
}
use mathlib.Core.Option.{some_inj}
use nimo_os_photos.Persons.Rows.{Face, Person, Store, Measures, active, update}
use nimo_os_photos.Persons.Cover.{
  cleared, keeps_cover, reselect, recomputed, recompute_found, recompute_faces,
  recompute_one_centroid,
}

-- What a recompute leaves of a row.
abbrev pub Kept : {F : Type 0} → Person F → Person F → Type 0
Kept p p' =
    (p'.name ≡ p.name)
    × (p'.favorite ≡ p.favorite)
    × (p'.relation ≡ p.relation)
    × (p'.hidden ≡ p.hidden)
    × (p'.purge_at ≡ p.purge_at)

abbrev pub KeptRow : {F : Type 0} → Option (Person F) → Option (Person F) → Type 0
KeptRow none o = o ≡ none
KeptRow (some p) o = (p' : Person _) × (o ≡ some p') × Kept p p'

module _ (r : Float64) (m : Measures r.F) where
  -- The row that a recompute makes of a row of these faces: cleared without faces, otherwise with the
  -- centroid, the confidence and the cover that the faces give.
  abbrev pub row_after : List Face → Person r.F → Option (Person r.F)
  row_after [] p = some (cleared r m p)
  row_after (f ∷ fs) p = recomputed r m (f ∷ fs) p

  abbrev pub row_of_faces : List Face → Option (Person r.F) → Option (Person r.F)
  row_of_faces fs none = none
  row_of_faces fs (some p) = row_after fs p

module _ (r : Float64) (m : Measures r.F) (id : Text) where
  reselect-Kept :
      (fs : List Face) (o : Option Face) (p p' : Person r.F)
      → reselect r m fs o p ≡ some p'
      → Kept p p'
  reselect-Kept fs none p p' h = absurd (cc)
  reselect-Kept fs (some f) p p' h = subst (Kept p) (some_inj.0 h) (refl, refl, refl, refl, refl)

  recomputed-Kept : (fs : List Face) (p p' : Person r.F) → recomputed r m fs p ≡ some p' → Kept p p'
  recomputed-Kept fs p p' = elim (Bool-cases (keeps_cover r m fs p)) [
    | inl e ↦ rw e (λ h. subst (Kept p) (some_inj.0 h) (refl, refl, refl, refl, refl))
    | inr e ↦ rw e (reselect-Kept fs _ p p')
  ]

  -- The store after a recompute: the faces as before, and one row that keeps its name and marks.
  abbrev pub OneRow : Store r.F → Store r.F → Type 0
  OneRow s s' =
      (s'.faces ≡ s.faces)
      × ((q : Text) → text_eq id q ≡ false → lookup q s'.persons ≡ lookup q s.persons)
      × KeptRow (lookup id s.persons) (lookup id s'.persons)

  update-OneRow :
      (g : Person r.F → Person r.F) (s : Store r.F) (o : Option (Person r.F))
      → lookup id s.persons ≡ o
      → ((p : Person r.F) → o ≡ some p → Kept p (g p))
      → OneRow s (update id g s)
  update-OneRow g s none e h = (
    refl,
    λ q d. lookup-alter id q g s.persons ∙ rw d refl,
    rw e (lookup-alter id id g s.persons ∙ rw ((text_eq_iff id id).1 refl, e) refl),
  )
  update-OneRow g s (some p) e h = (
    refl,
    λ q d. lookup-alter id q g s.persons ∙ rw d refl,
    rw e (g p, lookup-alter id id g s.persons ∙ rw ((text_eq_iff id id).1 refl, e) refl, h p refl),
  )

  recompute_found-OneRow :
      (fs : List Face) (o : Option (Person r.F)) (s s' : Store r.F)
      → lookup id s.persons ≡ o
      → recompute_found r m id fs o s ≡ some s'
      → OneRow s s'
  recompute_found-OneRow fs none s s' e h = absurd (cc)
  recompute_found-OneRow fs (some p) s s' e h =
      let (p', c, d) = >>=-eq-some (recomputed r m fs p) (λ x. some (update id (λ _. x) s)) h in
      subst (OneRow s) (some_inj.0 d) (
        update-OneRow (λ _. p') s (some p) e
          λ p2 k. subst (λ x. Kept x p') (some_inj.0 k) (recomputed-Kept fs p p' c))

  recompute_faces-OneRow :
      (fs : List Face) (s s' : Store r.F) → recompute_faces r m id fs s ≡ some s' → OneRow s s'
  recompute_faces-OneRow [] s s' h = subst (OneRow s) (some_inj.0 h) (
      update-OneRow (cleared r m) s (lookup id s.persons) refl
        λ p k. (refl, refl, refl, refl, refl))
  recompute_faces-OneRow (f ∷ fs) s s' h =
      recompute_found-OneRow (f ∷ fs) (lookup id s.persons) s s' refl h

  own-update :
      (g : Person r.F → Person r.F) (s : Store r.F) (p : Person r.F)
      → lookup id s.persons ≡ some p
      → lookup id (update id g s).persons ≡ some (g p)
  own-update g s p e = lookup-alter id id g s.persons ∙ rw ((text_eq_iff id id).1 refl, e) refl

  cleared_row :
      (s : Store r.F) (o : Option (Person r.F))
      → lookup id s.persons ≡ o
      → lookup id (update id (cleared r m) s).persons ≡ row_of_faces r m [] o
  cleared_row s none e =
      lookup-alter id id (cleared r m) s.persons ∙ rw ((text_eq_iff id id).1 refl, e) refl
  cleared_row s (some p) e = own-update (cleared r m) s p e

  found_row :
      (f : Face) (fs : List Face) (o : Option (Person r.F)) (s s' : Store r.F)
      → lookup id s.persons ≡ o
      → recompute_found r m id (f ∷ fs) o s ≡ some s'
      → lookup id s'.persons ≡ row_of_faces r m (f ∷ fs) o
  found_row f fs none s s' e h = absurd (cc)
  found_row f fs (some p) s s' e h =
      let (p', c, d) =
        >>=-eq-some (recomputed r m (f ∷ fs) p) (λ x. some (update id (λ _. x) s)) h in
      ap (λ x. lookup id x.persons) (sym (some_inj.0 d)) ∙ own-update (λ _. p') s p e ∙ sym c

  faces_row :
      (fs : List Face) (s s' : Store r.F)
      → recompute_faces r m id fs s ≡ some s'
      → lookup id s'.persons ≡ row_of_faces r m fs (lookup id s.persons)
  faces_row [] s s' h =
      ap (λ x. lookup id x.persons) (sym (some_inj.0 h)) ∙ cleared_row s (lookup id s.persons) refl
  faces_row (f ∷ fs) s s' h = found_row f fs (lookup id s.persons) s s' refl h

  pub recompute-row :
      (fault : Bool) (s s' : Store r.F)
      → recompute_one_centroid r m fault id s ≡ some s'
      → lookup id s'.persons ≡ row_of_faces r m (keep (active id) s.faces) (lookup id s.persons)
  unfolding recompute_one_centroid
  recompute-row true s s' h = absurd (cc)
  recompute-row false s s' h = faces_row (keep (active id) s.faces) s s' h

  pub recompute-OneRow :
      (fault : Bool) (s s' : Store r.F)
      → recompute_one_centroid r m fault id s ≡ some s'
      → OneRow s s'
  unfolding recompute_one_centroid
  recompute-OneRow true s s' h = absurd (cc)
  recompute-OneRow false s s' h = recompute_faces-OneRow (keep (active id) s.faces) s s' h
