-- ===== src/Persons/Calls.antt =====
-- Calls of the service in any order, each with its own failures and its own time.
use nimo_os_photos.Prelude.{ℕ, Bool, List, [], ◌∷◌, Text, Float64}
use nimo_os_photos.Persons.Rows.{Store, Measures, Faults}
use nimo_os_photos.Persons.Edits.{
  PersonPatch, update_person, set_person_cover, unlock_person_cover, merge_persons,
  detach_assets_from_person,
}
use nimo_os_photos.Persons.Purge.{
  purge_person, set_hidden, restore_person, hide_person_for_purge, purge_due_person,
}
use nimo_os_photos.Persons.Groups.{Agree}
use nimo_os_photos.Persons.Invariant.{
  purge_person-Agree, purge_due_person-Agree, set_hidden-Agree, restore_person-Agree,
  hide_person_for_purge-Agree, update_person-Agree,
}
use nimo_os_photos.Persons.Regrouped.{
  merge_persons-Agree, unlock_person_cover-Agree, set_person_cover-Agree,
}
use nimo_os_photos.Persons.Detached.{detach_assets_from_person-Agree}

pub data Call : Type 0 where
  update_row : Text → PersonPatch → Call
  pin_cover : Text → Text → Call
  unlock_cover : Text → Call
  merge : Text → Text → Call
  detach : Text → List Text → Call
  hide : Text → Bool → Call
  restore : Text → Call
  hide_for_purge : Text → Call
  purge : Text → Call
  -- One step of the sweep, for an id of its list.
  purge_due : Text → Call

pub record Timed : Type 0 where
  pub call : Call
  pub faults : Faults
  pub now : ℕ

module _ (r : Float64) (m : Measures r.F) where
  abbrev pub apply_call : Call → Faults → ℕ → Store r.F → Store r.F
  apply_call (update_row id patch) f now s = (update_person f id patch s).0
  apply_call (pin_cover id aid) f now s = (set_person_cover r m f id aid s).0
  apply_call (unlock_cover id) f now s = (unlock_person_cover r m f id s).0
  apply_call (merge from into) f now s = (merge_persons r m f from into s).0
  apply_call (detach id aids) f now s = (detach_assets_from_person r m f id aids s).0
  apply_call (hide id hidden) f now s = (set_hidden f id hidden s).0
  apply_call (restore id) f now s = (restore_person f id s).0
  apply_call (hide_for_purge id) f now s = (hide_person_for_purge f now id s).0
  apply_call (purge id) f now s = (purge_person f id s).0
  apply_call (purge_due id) f now s = (purge_due_person f now id s).0

  unfoldable pub run_calls : List Timed → Store r.F → Store r.F
  run_calls [] s = s
  run_calls (c ∷ cs) s = run_calls cs (apply_call c.call c.faults c.now s)

  apply_call-Agree :
      (c : Call) (f : Faults) (now : ℕ) (s : Store r.F) → Agree s → Agree (apply_call c f now s)
  apply_call-Agree (update_row id patch) f now s h = update_person-Agree f id patch s h
  apply_call-Agree (pin_cover id aid) f now s h = set_person_cover-Agree r m f id aid s h
  apply_call-Agree (unlock_cover id) f now s h = unlock_person_cover-Agree r m f id s h
  apply_call-Agree (merge from into) f now s h = merge_persons-Agree r m f from into s h
  apply_call-Agree (detach id aids) f now s h = detach_assets_from_person-Agree r m f id aids s h
  apply_call-Agree (hide id hidden) f now s h = set_hidden-Agree f id hidden s h
  apply_call-Agree (restore id) f now s h = restore_person-Agree f id s h
  apply_call-Agree (hide_for_purge id) f now s h = hide_person_for_purge-Agree f now id s h
  apply_call-Agree (purge id) f now s h = purge_person-Agree f id s h
  apply_call-Agree (purge_due id) f now s h = purge_due_person-Agree f now id s h

  -- Over any calls, whatever fails: if no face is bound to a person that is not there, and the cover and
  -- the hero of each person are the id of one of its faces that are not excluded and the asset of such a
  -- face, then it stays so.
  pub run_calls-Agree : (cs : List Timed) (s : Store r.F) → Agree s → Agree (run_calls cs s)
  unfolding run_calls
  run_calls-Agree [] s h = h
  run_calls-Agree (c ∷ cs) s h =
      run_calls-Agree cs (apply_call c.call c.faults c.now s)
        (apply_call-Agree c.call c.faults c.now s h)
