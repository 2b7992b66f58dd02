-- ===== src/Persons/Invariant.antt =====
-- Each call leaves the faces, the persons and their covers in agreement, whatever fails.
use nimo_os_photos.Prelude.{
  ℕ, ◌≡◌, refl, subst, ◌∙◌, Bool, true, false, ◌&&◌, ◌||◌, not, Option, none, some, List, map, Text,
  text_Eq, is_empty, lookup, arith, inl, inr, Bool-cases,
}
use mathlib.Core.Option.{some_inj}
use nimo_os_photos.Persons.Rows.{Face, Person, Store, Faults, bound_to, exists}
use nimo_os_photos.Persons.Edits.{
  PersonPatch, patched, no_sets, wants_hero, has_face, update_person,
}
use nimo_os_photos.Persons.Purge.{
  exclude, purge_person_rows, purge_tx, purge_person, set_hidden, restore_person,
  hide_person_for_purge, row_due, purge_due_person,
}
use nimo_os_photos.Persons.Groups.{agrees, Agree}
use nimo_os_photos.Persons.Deletion.{
  Touches, touched-holds, delete-holds, Agree-if, exec-Agree, finish-Agree,
}

exclude-Touches : (p q : Text) → Touches p q (exclude p)
exclude-Touches p q f = elim (Bool-cases (bound_to p f)) [
  | inl e ↦ inr (e, rw e refl)
  | inr e ↦ inl (rw e refl)
]

module _ {F : Type 0} where
  purge_person_rows-Agree : (id : Text) (s : Store F) → Agree s → Agree (purge_person_rows id s)
  unfolding purge_person_rows
  purge_person_rows-Agree id s h =
      delete-holds (λ q. false) id (record s { faces = map (exclude id) s.faces })
        λ q e.
          touched-holds id q (exclude id) e (exclude-Touches id q) false s.faces
            (lookup q s.persons)
          ∙ h q

  purge_tx-Agree : (f : Faults) (id : Text) (s : Store F) → Agree s → Agree (purge_tx f id s).0
  purge_tx-Agree f id s h = elim (Bool-cases f.write) [
    | inl e ↦ rw e h
    | inr e ↦ rw e (
        finish-Agree f.commit _ s h λ a s' k.
          subst (λ (x : Unit {0} × Store F). Agree x.1) (some_inj.0 k)
            (purge_person_rows-Agree id s h))
  ]

  pub purge_person-Agree :
      (f : Faults) (id : Text) (s : Store F) → Agree s → Agree (purge_person f id s).0
  unfolding purge_person
  purge_person-Agree f id s h =
      Agree-if (f.begin || f.check) _ _ h (Agree-if (exists id s) _ _ (purge_tx-Agree f id s h) h)

  pub purge_due_person-Agree :
      (f : Faults) (now : ℕ) (id : Text) (s : Store F)
      → Agree s
      → Agree (purge_due_person f now id s).0
  unfolding purge_due_person
  purge_due_person-Agree f now id s h =
      Agree-if (f.begin || f.check) _ _ h
        (Agree-if (row_due now (lookup id s.persons)) _ _ (purge_tx-Agree f id s h) h)

  pub set_hidden-Agree :
      (f : Faults) (id : Text) (hidden : Bool) (s : Store F)
      → Agree s
      → Agree (set_hidden f id hidden s).0
  unfolding set_hidden
  set_hidden-Agree f id hidden s h = exec-Agree f.write id _ s h λ p k. k

  pub restore_person-Agree :
      (f : Faults) (id : Text) (s : Store F) → Agree s → Agree (restore_person f id s).0
  unfolding restore_person
  restore_person-Agree f id s h = exec-Agree f.write id _ s h λ p k. k

  pub hide_person_for_purge-Agree :
      (f : Faults) (now : ℕ) (id : Text) (s : Store F)
      → Agree s
      → Agree (hide_person_for_purge f now id s).0
  unfolding hide_person_for_purge
  hide_person_for_purge-Agree f now id s h = exec-Agree f.write id _ s h λ p k. k

  -- The hero of a patch that is validated, or the old one.
  patched-agrees :
      (id : Text) (hero : Option Text) (patch : PersonPatch) (fs : List Face) (p : Person F)
      → patch.hero_asset_id ≡ hero
      → (wants_hero hero && not (has_face id hero fs)) ≡ false
      → agrees id fs (some p) ≡ true
      → agrees id fs (some (patched patch p)) ≡ true
  patched-agrees id none patch fs p e h k = rw e k
  patched-agrees id (some a) patch fs p e h k = rw e (elim (Bool-cases (is_empty a)) [
    | inl b ↦ rw b (ground (arith, k))
    | inr b ↦ rw b (ground (arith, k, h, b))
  ])

  pub update_person-Agree :
      (f : Faults) (id : Text) (patch : PersonPatch) (s : Store F)
      → Agree s
      → Agree (update_person f id patch s).0
  unfolding update_person
  update_person-Agree f id patch s h =
      Agree-if (wants_hero patch.hero_asset_id && f.select) _ _ h
        (elim (Bool-cases
          (wants_hero patch.hero_asset_id && not (has_face id patch.hero_asset_id s.faces))) [
            | inl e ↦ rw e h
            | inr e ↦ rw e (
                Agree-if (no_sets patch) _ _
                  (Agree-if f.check _ _ h (Agree-if (exists id s) _ _ h h))
                  (exec-Agree f.write id (patched patch) s h
                    λ p k. patched-agrees id patch.hero_asset_id patch s.faces p refl e k))
          ])
