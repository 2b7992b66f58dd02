-- ===== src/Persons/Merging.antt =====
-- What a merge does to the faces and to the two persons.
use nimo_os_photos.Prelude.{
  ◌≡◌, refl, ap, sym, subst, ◌∙◌, Bool, true, false, ◌&&◌, ◌||◌, Option, none, some, map, map-map,
  map_cong, Text, text_Eq, text_eq, text_eq_iff, keep, lookup, lookup-delete, Float64, >>=-eq-some,
  arith, inl, inr, Bool-cases, if◌then◌else◌,
}
use mathlib.Core.Option.{some_inj}
use nimo_os_photos.Persons.Rows.{
  Face, Store, Measures, Faults, done, active, unbind, exists, finish,
}
use nimo_os_photos.Persons.Cover.{recompute_one_centroid}
use nimo_os_photos.Persons.Edits.{move_face, merged, merge_body, merge_persons}
use nimo_os_photos.Persons.OneRow.{KeptRow, row_of_faces, OneRow, recompute-row, recompute-OneRow}

finish-done :
    {F A : Type 0} (fault : Bool) (o : Option (A × Store F)) (s : Store F) (a : A)
    → (finish fault o s).1 ≡ done a
    → (s' : Store F) × (o ≡ some (a, s')) × ((finish fault o s).0 ≡ s')
finish-done fault none s a h = absurd (cc)
finish-done true (some (b, s')) s a h = absurd (cc)
finish-done false (some (b, s')) s a h = (s', ap (λ x. some (x, s')) (cc), refl)

moved_away :
    (from into : Text) (f : Face)
    → text_eq from into ≡ false
    → unbind from (move_face from into f) ≡ move_face from into f
moved_away from into f h = ground (arith, text_eq_iff from into, text_eq_iff into from, h)

module _ (r : Float64) (m : Measures r.F) where
  -- A merge that succeeds, taken apart.
  merge-done :
      (f : Faults) (from into : Text) (s : Store r.F)
      → (merge_persons r m f from into s).1 ≡ done tt
      → (text_eq from into ≡ false)
        × (s' : Store r.F) × (recompute_one_centroid r m
              (f.write || f.recompute)
              into
              (merged from into s)
            ≡ some s')
        × ((merge_persons r m f from into s).0 ≡ s')
  unfolding merge_persons
  merge-done f from into s = elim (Bool-cases (text_eq from into)) [
    | inl e ↦ rw e (λ h. absurd (cc))
    | inr e ↦ rw e (elim (Bool-cases (f.begin || f.check)) [
      | inl b ↦ rw b (λ h. absurd (cc))
      | inr b ↦ rw b (elim (Bool-cases (exists from s && exists into s)) [
        | inr x ↦ rw x (λ h. absurd (cc))
        | inl x ↦ rw x (λ h.
            let (s', c, d) = finish-done f.commit (merge_body r m f from into s) s tt h in
            let (z, k, l) =
              >>=-eq-some
                (recompute_one_centroid r m (f.write || f.recompute) into (merged from into s))
                (λ y. some (tt, y)) c in
            (refl, z, k, d ∙ sym (ap (λ (p : Unit {0} × Store r.F). p.1) (some_inj.0 l))))
      ])
    ])
  ]

  merged_faces :
      (from into : Text) (s : Store r.F)
      → text_eq from into ≡ false
      → (merged from into s).faces ≡ map (move_face from into) s.faces
  merged_faces from into s h =
      map-map (unbind from) (move_face from into) s.faces
      ∙ map_cong (λ f. unbind from (move_face from into f)) (move_face from into) s.faces
          (λ f. moved_away from into f h)

  -- The row of a person after a merge of from into into.
  abbrev pub RowAfter : Text → Text → Text → Store r.F → Store r.F → Type 0
  RowAfter from into q s s' =
      (lookup q s'.persons ≡ (
        if text_eq from q
        then none
        else if text_eq into q
        then row_of_faces r m (keep (active into) s'.faces) (lookup into s.persons)
        else lookup q s.persons))
      × KeptRow (lookup into s.persons) (lookup into s'.persons)

  merged-RowAfter :
      (from into q : Text) (s s' : Store r.F)
      → text_eq from into ≡ false
      → OneRow r m into (merged from into s) s'
      → lookup into s'.persons
        ≡ row_of_faces r m
            (keep (active into) (merged from into s).faces)
            (lookup into (merged from into s).persons)
      → RowAfter from into q s s'
  merged-RowAfter from into q s s' h one own = (
    elim (Bool-cases (text_eq into q)) [
      | inl e ↦
          rw (e, ap (λ x. text_eq from x) (sym ((text_eq_iff into q).0 e)) ∙ h)
            (ap (λ x. lookup x s'.persons) (sym ((text_eq_iff into q).0 e))
              ∙ own
              ∙ ap (row_of_faces r m (keep (active into) (merged from into s).faces))
                  (lookup-delete from into s.persons ∙ rw h refl)
              ∙ ap (λ fs. row_of_faces r m (keep (active into) fs) (lookup into s.persons))
                  (sym one.0))
      | inr e ↦ rw e (
          one.1 q e
          ∙ lookup-delete from q s.persons
          ∙ elim (Bool-cases (text_eq from q)) [ inl d ↦ rw d refl | inr d ↦ rw d refl ])
    ],
    subst (λ o. KeptRow o (lookup into s'.persons)) (lookup-delete from into s.persons ∙ rw h refl)
        one.2,
  )

  -- After a merge that succeeds the faces of from are those of into and all others as they were. The row
  -- of from is gone. That of into is what a recompute makes of it with its faces as they are now, those of
  -- from among them: cleared without active faces, otherwise with their centroid, confidence and cover;
  -- and it keeps its name, favorite, relation, hidden and purge_at. Any other person is as before.
  pub merge_persons_exact :
      (f : Faults) (from into q : Text) (s : Store r.F)
      → (merge_persons r m f from into s).1 ≡ done tt
      → let s' = (merge_persons r m f from into s).0 in
        (s'.faces ≡ map (move_face from into) s.faces) × RowAfter from into q s s'
  merge_persons_exact f from into q s h =
      let (e, s', k, d) = merge-done f from into s h in
      let one : OneRow r m into (merged from into s) s' =
        recompute-OneRow r m into (f.write || f.recompute) (merged from into s) s' k in
      subst (λ x. (x.faces ≡ map (move_face from into) s.faces) × RowAfter from into q s x) (sym d)
        (
          one.0 ∙ merged_faces from into s e,
          merged-RowAfter from into q s s' e one
              (recompute-row r m into (f.write || f.recompute) (merged from into s) s' k),
        )
