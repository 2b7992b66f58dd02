-- ===== src/Persons/Dying.antt =====
-- A merge into a person whose purge is scheduled.
use nimo_os_photos.Prelude.{
  ℕ, ◌≡◌, refl, ap, subst, ◌∙◌, true, false, ◌||◌, Option, none, some, map, map-map, map_cong, Text,
  text_Eq, text_eq_refl, lookup, Float64, arith, if◌then◌else◌,
}
use nimo_os_photos.Persons.Rows.{Face, Person, Store, Measures, Faults, done, bound_to, unbind}
use nimo_os_photos.Persons.Edits.{move_face, merge_persons}
use nimo_os_photos.Persons.Purge.{exclude, purge_person_rows, row_due, purge_due_person}
use nimo_os_photos.Persons.OneRow.{KeptRow}
use nimo_os_photos.Persons.Merging.{merge_persons_exact}

abbrev pub no_faults : Faults
no_faults = record {
  begin = false;
  check = false;
  select = false;
  write = false;
  recompute = false;
  commit = false;
}

-- A face of either person, excluded and taken off.
abbrev pub lost : Text → Text → Face → Face
lost from into f =
    if bound_to from f || bound_to into f then record f { excluded = true; person_id = none } else f

lost_face :
    (from into : Text) (f : Face)
    → unbind into (exclude into (move_face from into f)) ≡ lost from into f
lost_face from into f = ground (arith, text_eq_refl into)

kept_due :
    {F : Type 0} (now : ℕ) (p : Person F) (o : Option (Person F))
    → KeptRow (some p) o
    → row_due now (some p) ≡ true
    → row_due now o ≡ true
kept_due now p o (p', e, kept) h = rw (e, kept.3, kept.4) h

purged_faces :
    {F : Type 0} (now : ℕ) (into : Text) (s : Store F)
    → row_due now (lookup into s.persons) ≡ true
    → (purge_due_person no_faults now into s).0.faces
      ≡ map (unbind into) (map (exclude into) s.faces)
unfolding purge_due_person purge_person_rows
purged_faces now into s h = rw h refl

-- MergePersons does not look at whether into is hidden with its purge scheduled: after such a merge, the
-- purge at a time when it is due excludes every face of from, with those of into.
pub merged_into_dying :
    (r : Float64) (m : Measures r.F) (f : Faults) (from into : Text) (now : ℕ) (p : Person r.F)
    (s : Store r.F)
    → lookup into s.persons ≡ some p
    → row_due now (some p) ≡ true
    → (merge_persons r m f from into s).1 ≡ done tt
    → (purge_due_person no_faults now into (merge_persons r m f from into s).0).0.faces
      ≡ map (lost from into) s.faces
merged_into_dying r m f from into now p s e d h =
    let s' : Store r.F = (merge_persons r m f from into s).0 in
    let (faces, row) = merge_persons_exact r m f from into into s h in
    let due : row_due now (lookup into s'.persons) ≡ true =
      kept_due now p (lookup into s'.persons)
        (subst (λ o. KeptRow o (lookup into s'.persons)) e row.1) d in
    purged_faces now into s' due
    ∙ ap (λ fs. map (unbind into) (map (exclude into) fs)) faces
    ∙ ap (map (unbind into)) (map-map (exclude into) (move_face from into) s.faces)
    ∙ map-map (unbind into) (λ g. exclude into (move_face from into g)) s.faces
    ∙ map_cong (λ g. unbind into (exclude into (move_face from into g))) (lost from into) s.faces
        (lost_face from into)
