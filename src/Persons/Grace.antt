-- ===== src/Persons/Grace.antt =====
-- The time between the deletion of a person and its purge.
use nimo_os_photos.Prelude.{
  ℕ, ◌≡◌, refl, ap, sym, subst, ◌∙◌, Bool, true, false, ◌&&◌, ◌||◌, not, Option, none, some, List,
  [], ◌∷◌, map, Text, text_Eq, text_eq, text_eq_iff, is_empty, keep, any, length, lookup,
  lookup-alter, is_some, Float64, ◌>>=◌, >>=-eq-some, ◌==◌, arith, inl, inr, Bool-cases,
  if◌then◌else◌,
}
use mathlib.Core.Option as Option
use mathlib.Core.Option.{some_inj}
use nimo_os_photos.Persons.Rows.{
  Face, Person, Store, Measures, Faults, done, bound_to, exists, update,
}
use nimo_os_photos.Persons.Cover.{recompute_one_centroid}
use nimo_os_photos.Persons.Edits.{
  patched, no_sets, wants_hero, has_face, detached, detach_face, clear_hero, update_person,
  move_face, merged, delete_if_empty, best_area, pinned_cover, set_cover_of, cover_read,
  set_person_cover, unlocked, unlock_person_cover, merge_body, merge_persons, detach_body,
  detach_assets_from_person,
}
use nimo_os_photos.Persons.Purge.{
  purge_person, set_hidden, restore_person, hide_person_for_purge, row_due, purge_due_person,
}
use nimo_os_photos.Persons.Calls.{
  Call, update_row, pin_cover, unlock_cover, merge, detach, hide, restore, hide_for_purge, purge,
  purge_due, Timed, apply_call, run_calls,
}
use nimo_os_photos.Persons.OneRow.{KeptRow, OneRow, recompute-OneRow}
use nimo_os_photos.Persons.Scheduled.{
  safe, Safe, KeptRow-safe, safe-due, update-Safe, other-Safe, delete-Safe, Safe-if, finish-Safe,
  exec-Safe, purge_tx-Safe, delete_if_empty-Safe,
}

-- A call that is not meant to delete the person, to merge it into another or to take its faces off.
abbrev pub spares : Text → Call → Bool
spares q (hide_for_purge id) = not (text_eq id q)
spares q (purge id) = not (text_eq id q)
spares q (merge from into) = not (text_eq from q)
spares q (detach id aids) = not (text_eq id q)
spares q _ = true

module _ (r : Float64) (m : Measures r.F) (q : Text) where
  recompute-Safe :
      (id : Text) (fault : Bool) (s s' : Store r.F)
      → Safe q s
      → recompute_one_centroid r m fault id s ≡ some s'
      → Safe q s'
  recompute-Safe id fault s s' h k =
      let one : OneRow r m id s s' = recompute-OneRow r m id fault s s' k in
      elim (Bool-cases (text_eq id q)) [
        | inl e ↦
            let same : id ≡ q = (text_eq_iff id q).0 e in
            KeptRow-safe (lookup q s.persons) (lookup q s'.persons)
              (subst (λ x. KeptRow (lookup x s.persons) (lookup x s'.persons)) same one.2) h
        | inr e ↦ ap safe (one.1 q e) ∙ h
      ]

  merge_body-Safe :
      (f : Faults) (from into : Text) (s s' : Store r.F) (a : Unit {0})
      → text_eq from q ≡ false
      → Safe q s
      → merge_body r m f from into s ≡ some (a, s')
      → Safe q s'
  merge_body-Safe f from into s s' a e h k =
      let (z, c, d) =
        >>=-eq-some (recompute_one_centroid r m (f.write || f.recompute) into (merged from into s))
          (λ y. some (tt, y)) k in
      subst (λ (x : Unit {0} × Store r.F). Safe q x.1) (some_inj.0 d)
        (recompute-Safe into (f.write || f.recompute) (merged from into s) z
          (delete-Safe q from (record s { faces = map (move_face from into) s.faces }) e h) c)

  unlocked-Safe :
      (f : Faults) (id : Text) (s s' : Store r.F) (a : Option Text)
      → Safe q s
      → unlocked r m f id s ≡ some (a, s')
      → Safe q s'
  unlocked-Safe f id s s' a h k =
      let s1 : Store r.F = update id (λ p. record p { cover_locked = false }) s in
      let (z, c, d) = >>=-eq-some (recompute_one_centroid r m (f.write || f.recompute) id s1) _ k in
      let (cover, _, e) =
        >>=-eq-some (if f.select then none else cover_read r m (lookup id z.persons))
          (λ c. some (c, z)) d in
      subst (λ (x : Option Text × Store r.F). Safe q x.1) (some_inj.0 e)
        (recompute-Safe id (f.write || f.recompute) s1 z (update-Safe q id _ s (λ p b. b) h) c)

  detach_body-Safe :
      (f : Faults) (id : Text) (aids : List Text) (s s' : Store r.F) (n : ℕ)
      → text_eq id q ≡ false
      → Safe q s
      → detach_body r m f id aids s ≡ some (n, s')
      → Safe q s'
  detach_body-Safe f id aids s s' n t h k =
      let s1 : Store r.F =
        clear_hero id aids (record s { faces = map (detach_face id aids) s.faces }) in
      let (z, c, d) =
        >>=-eq-some (recompute_one_centroid r m (f.write || f.recompute) id s1)
          (λ z. delete_if_empty id (any (bound_to id) z.faces) (lookup id z.persons) z >>= λ y.
            some (length (keep (detached id aids) s.faces), y))
          k in
      let (y, e, g) =
        >>=-eq-some (delete_if_empty id (any (bound_to id) z.faces) (lookup id z.persons) z)
          (λ y. some (length (keep (detached id aids) s.faces), y)) d in
      subst (λ (x : ℕ × Store r.F). Safe q x.1) (some_inj.0 g)
        (delete_if_empty-Safe q id (any (bound_to id) z.faces) (lookup id z.persons) z y t
          (recompute-Safe id (f.write || f.recompute) s1 z
            (other-Safe q id _ (record s { faces = map (detach_face id aids) s.faces }) t h) c)
          e)

  set_cover_of-Safe :
      (fault : Bool) (id aid : Text) (fs : List Face) (s : Store r.F)
      → Safe q s
      → Safe q (set_cover_of r m fault id aid fs s).0
  set_cover_of-Safe fault id aid [] s h = h
  set_cover_of-Safe fault id aid (f ∷ fs) s h = Safe-if q fault _ _ h (
      Safe-if q (exists id s) _ _
        (update-Safe q id (pinned_cover r m (best_area r m f fs) aid) s (λ p b. b) h) h)

  apply_call-Safe :
      (c : Call) (f : Faults) (now : ℕ) (s : Store r.F)
      → spares q c ≡ true
      → Safe q s
      → Safe q (apply_call r m c f now s)
  unfolding update_person set_person_cover unlock_person_cover merge_persons
      detach_assets_from_person set_hidden restore_person hide_person_for_purge purge_person
      purge_due_person
  apply_call-Safe (update_row id patch) f now s e h =
      Safe-if q (wants_hero patch.hero_asset_id && f.select) _ _ h (
        Safe-if q (wants_hero patch.hero_asset_id && not (has_face id patch.hero_asset_id s.faces))
          _ _ h
          (Safe-if q (no_sets patch) _ _ (Safe-if q f.check _ _ h (Safe-if q (exists id s) _ _ h h))
            (exec-Safe q f.write id (patched patch) s
              (update-Safe q id (patched patch) s (λ p b. b) h) h)))
  apply_call-Safe (pin_cover id aid) f now s e h =
      Safe-if q f.select _ _ h (set_cover_of-Safe f.write id aid _ s h)
  apply_call-Safe (unlock_cover id) f now s e h = Safe-if q (f.begin || f.check) _ _ h (
      Safe-if q (exists id s) _ _
        (finish-Safe q f.commit _ s h λ a s' k. unlocked-Safe f id s s' a h k) h)
  apply_call-Safe (merge from into) f now s e h = Safe-if q (text_eq from into) _ _ h (
      Safe-if q (f.begin || f.check) _ _ h (
        Safe-if q (exists from s && exists into s) _ _
          (finish-Safe q f.commit _ s h
            λ a s' k. merge_body-Safe f from into s s' a (ground (arith, e)) h k)
          h))
  apply_call-Safe (detach id aids) f now s e h = Safe-if q (is_empty id) _ _ h (
      Safe-if q (length aids == 0) _ _ h (
        Safe-if q (f.begin || f.check) _ _ h (
          Safe-if q (not (exists id s)) _ _ h (
            Safe-if q f.select _ _ h (
              Safe-if q (any (detached id aids) s.faces) _ _
                (finish-Safe q f.commit _ s h
                  λ n s' k. detach_body-Safe f id aids s s' n (ground (arith, e)) h k)
                h)))))
  apply_call-Safe (hide id hidden) f now s e h =
      exec-Safe q f.write id _ s (update-Safe q id _ s (λ p b. b) h) h
  apply_call-Safe (restore id) f now s e h =
      exec-Safe q f.write id _ s (update-Safe q id _ s (λ p b. refl) h) h
  apply_call-Safe (hide_for_purge id) f now s e h =
      exec-Safe q f.write id _ s (other-Safe q id _ s (ground (arith, e)) h) h
  apply_call-Safe (purge id) f now s e h =
      Safe-if q (f.begin || f.check) _ _ h
        (Safe-if q (exists id s) _ _ (purge_tx-Safe q f id s (ground (arith, e)) h) h)
  apply_call-Safe (purge_due id) f now s e h = elim (Bool-cases (text_eq id q)) [
    | inl d ↦
        let none_due : row_due now (lookup id s.persons) ≡ false =
          safe-due now (lookup id s.persons)
            (subst (λ x. safe (lookup x s.persons) ≡ true) (sym ((text_eq_iff id q).0 d)) h) in
        Safe-if q (f.begin || f.check) _ _ h (rw none_due h)
    | inr d ↦
        Safe-if q (f.begin || f.check) _ _ h
          (Safe-if q (row_due now (lookup id s.persons)) _ _ (purge_tx-Safe q f id s d h) h)
  ]

  run_calls-Safe :
      (cs : List Timed) (s : Store r.F)
      → any (λ c. not (spares q c.call)) cs ≡ false
      → Safe q s
      → Safe q (run_calls r m cs s)
  unfolding run_calls
  run_calls-Safe [] s e h = h
  run_calls-Safe (c ∷ cs) s e h =
      run_calls-Safe cs (apply_call r m c.call c.faults c.now s) (ground (arith, e))
        (apply_call-Safe c.call c.faults c.now s (ground (arith, e)) h)

  restored :
      (f : Faults) (s : Store r.F)
      → (restore_person f q s).1 ≡ done tt
      → Safe q (restore_person f q s).0
  unfolding restore_person
  restored f s = elim (Bool-cases f.write) [
    | inl e ↦ rw e (λ h. absurd (cc))
    | inr e ↦ rw e (elim (Bool-cases (exists q s)) [
      | inl d ↦ rw d λ h.
          ap safe (lookup-alter q q _ s.persons)
          ∙ rw ((text_eq_iff q q).1 refl) (unpurged (lookup q s.persons) d)
      | inr d ↦ rw d (λ h. absurd (cc))
    ])
  ]
    where
      unpurged :
          (o : Option (Person r.F))
          → is_some o ≡ true
          → safe (Option.map {A = Person r.F} (λ p. record p { hidden = false; purge_at = none }) o)
            ≡ true
      unpurged none h = absurd (cc)
      unpurged (some p) h = refl

  -- Once RestorePerson has succeeded, the person stays, with no purge scheduled, over any calls that do
  -- not delete it, merge it into another person or take assets off it, also where steps of a sweep that
  -- chose it before follow.
  pub restored_stays :
      (f : Faults) (cs : List Timed) (s : Store r.F)
      → (restore_person f q s).1 ≡ done tt
      → any (λ c. not (spares q c.call)) cs ≡ false
      → Safe q (run_calls r m cs (restore_person f q s).0)
  restored_stays f cs s h e = run_calls-Safe cs (restore_person f q s).0 e (restored f s h)
