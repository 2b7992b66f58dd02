-- ===== src/Persons/Purge.antt =====
-- service/persons.go: hiding, restoring and purging persons. The clock is an argument, in seconds.
use nimo_os_photos.Prelude.{
  ℕ, ◌+◌, Bool, true, false, ◌&&◌, ◌||◌, Option, none, some, List, [], ◌∷◌, map, Text, text_Eq,
  lookup, leb, if◌then◌else◌,
}
use nimo_os_photos.Persons.Rows.{
  Face, Person, Store, Faults, Outcome, done, not_found, db_error, bound_to, exists, delete_person,
  finish, exec,
}

-- personPurgeGrace: 30 seconds.
abbrev pub person_purge_grace : ℕ
person_purge_grace = 30

abbrev pub exclude : Text → Face → Face
exclude id f = if bound_to id f then record f { excluded = true; person_id = none } else f

abbrev pub is_due : ℕ → Option ℕ → Bool
is_due now none = false
is_due now (some t) = leb t now

module _ {F : Type 0} where
  unfoldable pub purge_person_rows : Text → Store F → Store F
  purge_person_rows id s = delete_person id (record s { faces = map (exclude id) s.faces })

  abbrev pub purge_tx : Faults → Text → Store F → Store F × Outcome Unit
  purge_tx f id s = finish f.commit (if f.write then none else some (tt, purge_person_rows id s)) s

  unfoldable pub purge_person : Faults → Text → Store F → Store F × Outcome Unit
  purge_person f id s =
      if f.begin || f.check
      then (s, db_error)
      else if exists id s
      then purge_tx f id s
      else (s, not_found)

  unfoldable pub set_hidden : Faults → Text → Bool → Store F → Store F × Outcome Unit
  set_hidden f id hidden s = exec f.write id (λ p. record p { hidden = hidden }) s

  unfoldable pub restore_person : Faults → Text → Store F → Store F × Outcome Unit
  restore_person f id s = exec f.write id (λ p. record p { hidden = false; purge_at = none }) s

  unfoldable pub hide_person_for_purge : Faults → ℕ → Text → Store F → Store F × Outcome Unit
  hide_person_for_purge f now id s =
      exec f.write id (λ p. record p { hidden = true; purge_at = some (now + person_purge_grace) })
        s

  -- The condition of PurgeDuePersons and of purgeDuePerson on a row.
  abbrev pub row_due : ℕ → Option (Person F) → Bool
  row_due now none = false
  row_due now (some p) = p.hidden && is_due now p.purge_at

  unfoldable pub purge_due_person : Faults → ℕ → Text → Store F → Store F × Outcome Unit
  purge_due_person f now id s =
      if f.begin || f.check
      then (s, db_error)
      else if row_due now (lookup id s.persons)
      then purge_tx f id s
      else (s, done tt)

  abbrev pub due_in : ℕ → List (Text × Person F) → List Text
  due_in now [] = []
  due_in now ((id, p) ∷ rows) =
      let rest = due_in now rows in if row_due now (some p) then id ∷ rest else rest

  -- The loop of PurgeDuePersons: each purge has its own failures and its own time, and an error is only
  -- logged.
  unfoldable pub purge_ids : (Text → Faults) → (Text → ℕ) → List Text → Store F → Store F
  purge_ids f now [] s = s
  purge_ids f now (id ∷ ids) s = purge_ids f now ids (purge_due_person (f id) (now id) id s).0

  unfoldable pub purge_due_persons :
      Bool → (Text → Faults) → ℕ → (Text → ℕ) → Store F → Store F × Outcome Unit
  purge_due_persons fault f now later s =
      if fault then (s, db_error) else (purge_ids f later (due_in now s.persons) s, done tt)
