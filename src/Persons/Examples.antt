-- ===== src/Persons/Examples.antt =====
-- Two persons with a face each; the second is hidden and its purge is scheduled.
use nimo_os_photos.Prelude.{
  ◌≡◌, refl, true, false, none, some, List, [], ◌∷◌, map, text, text_eq, any, lookup, delete, alter,
  thousandths, ℤ, pos, text_Eq, text_eq_iff, arith, Bool-cases, inl, inr, subst, not,
}
use nimo_os_photos.Persons.Rows.{Face, Person, Store, Measures, done}
use nimo_os_photos.Persons.Cover.{recompute_one_centroid, select_cover_face, best_hybrid}
use nimo_os_photos.Persons.Edits.{PersonPatch, merge_persons, move_face}
use nimo_os_photos.Persons.Purge.{restore_person, purge_due_person}
use nimo_os_photos.Persons.Groups.{agrees, Agree}
use nimo_os_photos.Persons.Choice.{recompute_total}
use nimo_os_photos.Persons.Calls.{Call, Timed, merge, purge_due, run_calls, run_calls-Agree}
use nimo_os_photos.Persons.Merging.{RowAfter, merge_persons_exact}
use nimo_os_photos.Persons.Grace.{spares, restored_stays}
use nimo_os_photos.Persons.Scheduled.{Safe}
use nimo_os_photos.Persons.Dying.{no_faults, lost, merged_into_dying}

abbrev face_a : Face
face_a = record {
  id = text "f";
  asset_id = text "x";
  excluded = false;
  person_id = some (text "a");
}

abbrev face_b : Face
face_b = record {
  id = text "g";
  asset_id = text "y";
  excluded = false;
  person_id = some (text "b");
}

abbrev person_a : Person ℤ
person_a = record {
  name = text "Ann";
  favorite = false;
  relation = text "";
  hidden = false;
  purge_at = none;
  cover_face_id = some (text "f");
  cover_asset_id = some (text "x");
  cover_locked = false;
  hero_asset_id = none;
  centroid = none;
  confidence = pos 0;
}

abbrev person_b : Person ℤ
person_b = record person_a {
  name = text "Bob";
  hidden = true;
  purge_at = some 130;
  cover_face_id = some (text "g");
}

abbrev two : Store ℤ
two = record {
  faces = face_a ∷ face_b ∷ [];
  persons = (text "a", person_a) ∷ (text "b", person_b) ∷ [];
}

abbrev rename : PersonPatch
rename = record {
  name = some (text "Anna");
  favorite = none;
  relation = none;
  hero_asset_id = some (text "x");
}

abbrev measures : Measures ℤ
measures = record {
  compute_centroid = λ fs. [];
  cluster_confidence = λ fs c. pos 900;
  hybrid_cover_score = λ f. pos 500;
  cos_dist = λ f c. pos 100;
  area = λ f. pos 1;
}

two-Agree : Agree two
unfolding lookup text_eq
two-Agree q = elim (Bool-cases (text_eq (text "a") q)) [
  | inl e ↦
      subst (λ x. agrees x two.faces (lookup x two.persons) ≡ true) ((text_eq_iff (text "a") q).0 e)
        refl
  | inr e ↦ elim (Bool-cases (text_eq (text "b") q)) [
    | inl d ↦
        subst (λ x. agrees x two.faces (lookup x two.persons) ≡ true)
          ((text_eq_iff (text "b") q).0 d) refl
    | inr d ↦ rw (e, d) (ground (arith, e, d))
  ]
]

abbrev plain : Call → Timed
plain c = record { call = c; faults = no_faults; now = 200 }

abbrev merge_and_purge : List Timed
merge_and_purge = plain (merge (text "a") (text "b")) ∷ plain (purge_due (text "b")) ∷ []

run_calls-Agree_example : Agree (run_calls thousandths measures merge_and_purge two)
run_calls-Agree_example = run_calls-Agree thousandths measures merge_and_purge two two-Agree

recompute_total_example :
    (s' : Store ℤ) × (recompute_one_centroid thousandths measures false (text "a") two ≡ some s')
unfolding lookup text_eq
recompute_total_example = recompute_total thousandths measures (text "a") two refl refl

merges : (merge_persons thousandths measures no_faults (text "a") (text "b") two).1 ≡ done tt
unfolding merge_persons recompute_one_centroid lookup alter delete text_eq select_cover_face
    best_hybrid
merges = refl

merge_persons_exact_example :
    ((merge_persons thousandths measures no_faults (text "a") (text "b") two).0.faces
      ≡ map (move_face (text "a") (text "b")) two.faces)
    × RowAfter thousandths measures
        (text "a")
        (text "b")
        (text "b")
        two
        (merge_persons thousandths measures no_faults (text "a") (text "b") two).0
merge_persons_exact_example =
    merge_persons_exact thousandths measures no_faults (text "a") (text "b") (text "b") two merges

restores : (restore_person no_faults (text "b") two).1 ≡ done tt
unfolding restore_person lookup text_eq
restores = refl

spared : any (λ c. not (spares (text "b") c.call)) merge_and_purge ≡ false
unfolding text_eq
spared = refl

restored_stays_example :
    Safe
      (text "b")
      (run_calls thousandths measures merge_and_purge (restore_person no_faults (text "b") two).0)
restored_stays_example =
    restored_stays thousandths measures (text "b") no_faults merge_and_purge two restores spared

merged_into_dying_example :
    (purge_due_person no_faults 200
      (text "b")
      (merge_persons thousandths measures no_faults (text "a") (text "b") two).0).0.faces
    ≡ map (lost (text "a") (text "b")) two.faces
unfolding lookup text_eq
merged_into_dying_example =
    merged_into_dying thousandths measures no_faults (text "a") (text "b") 200 person_b two refl
      refl merges
