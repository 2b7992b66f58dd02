-- ===== src/Persons/Edits.antt =====
-- service/persons.go: UpdatePerson, SetPersonCover, UnlockPersonCover and DetachAssetsFromPerson, and
-- service/search.go: MergePersons.
use nimo_os_photos.Prelude.{
  ℕ, Bool, true, false, ◌&&◌, ◌||◌, not, Option, none, some, List, [], ◌∷◌, map, Text, text_Eq,
  text_eq, text_mem, is_empty, keep, any, length, lookup, ◌==◌, Float64, ◌>>=◌, if◌then◌else◌,
}
use nimo_os_photos.Persons.Rows.{
  Face, Person, Store, Measures, Faults, Outcome, done, not_found, refused, db_error, bound_to,
  active, exists, update, delete_person, finish, exec,
}
use nimo_os_photos.Persons.Cover.{recompute_one_centroid}

pub record PersonPatch : Type 0 where
  pub name : Option Text
  pub favorite : Option Bool
  pub relation : Option Text
  pub hero_asset_id : Option Text

abbrev pub or_old {ℓ} : {A : Type ℓ} → Option A → A → A
or_old none a = a
or_old (some b) a = b

abbrev pub is_none {ℓ} : {A : Type ℓ} → Option A → Bool
is_none none = true
is_none (some a) = false

-- The column hero_asset_id after the patch.
abbrev pub new_hero : Option Text → Option Text → Option Text
new_hero none old = old
new_hero (some h) old = if is_empty h then none else some h

abbrev pub patched : {F : Type 0} → PersonPatch → Person F → Person F
patched patch p = record p {
  name = or_old patch.name p.name;
  favorite = or_old patch.favorite p.favorite;
  relation = or_old patch.relation p.relation;
  hero_asset_id = new_hero patch.hero_asset_id p.hero_asset_id;
}

abbrev pub no_sets : PersonPatch → Bool
no_sets patch =
    is_none patch.name
    && is_none patch.favorite
    && is_none patch.relation
    && is_none patch.hero_asset_id

-- The asset of the hero has to be validated, and has no active face of the person.
abbrev pub wants_hero : Option Text → Bool
wants_hero none = false
wants_hero (some h) = not (is_empty h)

abbrev pub has_face : Text → Option Text → List Face → Bool
has_face id none fs = true
has_face id (some a) fs = any (λ f. active id f && text_eq f.asset_id a) fs

abbrev pub is_anchored : {F : Type 0} → Person F → Bool
is_anchored p = not (is_empty p.name) || p.favorite || not (is_empty p.relation) || p.hidden

-- The faces of a person on the given assets.
abbrev pub detached : Text → List Text → Face → Bool
detached id aids f = active id f && text_mem f.asset_id aids

abbrev pub detach_face : Text → List Text → Face → Face
detach_face id aids f =
    if detached id aids f then record f { excluded = true; person_id = none } else f

abbrev pub hero_gone : List Text → Option Text → Bool
hero_gone aids none = false
hero_gone aids (some h) = not (is_empty h) && text_mem h aids

abbrev pub move_face : Text → Text → Face → Face
move_face from into f = if bound_to from f then record f { person_id = some into } else f

module _ {F : Type 0} where
  unfoldable pub update_person : Faults → Text → PersonPatch → Store F → Store F × Outcome Unit
  update_person f id patch s =
      if wants_hero patch.hero_asset_id && f.select
      then (s, db_error)
      else if wants_hero patch.hero_asset_id && not (has_face id patch.hero_asset_id s.faces)
      then (s, not_found)
      else if no_sets patch
      then (if f.check then (s, db_error) else if exists id s then (s, done tt) else (s, not_found))
      else exec f.write id (patched patch) s

  abbrev pub clear_hero : Text → List Text → Store F → Store F
  clear_hero id aids s =
      update id
        (λ p. if hero_gone aids p.hero_asset_id then record p { hero_asset_id = none } else p) s

  -- The statements of MergePersons before the recompute.
  abbrev pub merged : Text → Text → Store F → Store F
  merged from into s = delete_person from (record s { faces = map (move_face from into) s.faces })

  abbrev pub delete_if_empty : Text → Bool → Option (Person F) → Store F → Option (Store F)
  delete_if_empty id true o s = some s
  delete_if_empty id false none s = none
  delete_if_empty id false (some p) s = some (if is_anchored p then s else delete_person id s)

module _ (r : Float64) (m : Measures r.F) where
  abbrev pub best_area : Face → List Face → Face
  best_area best [] = best
  best_area best (f ∷ fs) = best_area (if r.lt (m.area best) (m.area f) then f else best) fs

  abbrev pub pinned_cover : Face → Text → Person r.F → Person r.F
  pinned_cover best aid p = record p {
    cover_face_id = some best.id;
    cover_asset_id = some aid;
    cover_locked = true;
  }

  abbrev pub set_cover_to : Bool → Text → Text → Face → Store r.F → Store r.F × Outcome Text
  set_cover_to fault id aid best s =
      if fault
      then (s, db_error)
      else if exists id s
      then (update id (pinned_cover best aid) s, done best.id)
      else (s, not_found)

  abbrev pub set_cover_of : Bool → Text → Text → List Face → Store r.F → Store r.F × Outcome Text
  set_cover_of fault id aid [] s = (s, not_found)
  set_cover_of fault id aid (f ∷ fs) s = set_cover_to fault id aid (best_area f fs) s

  unfoldable pub set_person_cover : Faults → Text → Text → Store r.F → Store r.F × Outcome Text
  set_person_cover f id aid s =
      if f.select
      then (s, db_error)
      else set_cover_of f.write id aid (keep (λ g. active id g && text_eq g.asset_id aid) s.faces) s

  abbrev pub cover_read : Option (Person r.F) → Option (Option Text)
  cover_read none = none
  cover_read (some p) = some p.cover_face_id

  abbrev pub unlocked : Faults → Text → Store r.F → Option (Option Text × Store r.F)
  unlocked f id s = do
    s' ←
        recompute_one_centroid r m (f.write || f.recompute) id
          (update id (λ p. record p { cover_locked = false }) s)
    cover ← if f.select then none else cover_read (lookup id s'.persons)
    some (cover, s')

  unfoldable pub unlock_person_cover : Faults → Text → Store r.F → Store r.F × Outcome (Option Text)
  unlock_person_cover f id s =
      if f.begin || f.check
      then (s, db_error)
      else if exists id s
      then finish f.commit (unlocked f id s) s
      else (s, not_found)

  abbrev pub merge_body : Faults → Text → Text → Store r.F → Option (Unit {0} × Store r.F)
  merge_body f from into s = do
    s' ← recompute_one_centroid r m (f.write || f.recompute) into (merged from into s)
    some (tt, s')

  unfoldable pub merge_persons : Faults → Text → Text → Store r.F → Store r.F × Outcome Unit
  merge_persons f from into s =
      if text_eq from into
      then (s, refused)
      else if f.begin || f.check
      then (s, db_error)
      else if exists from s && exists into s
      then finish f.commit (merge_body f from into s) s
      else (s, not_found)

  -- From the marking of the faces to the deletion of an empty person.
  abbrev pub detach_body : Faults → Text → List Text → Store r.F → Option (ℕ × Store r.F)
  detach_body f id aids s = do
    s' ←
        recompute_one_centroid r m (f.write || f.recompute) id
          (clear_hero id aids (record s { faces = map (detach_face id aids) s.faces }))
    s'' ← delete_if_empty id (any (bound_to id) s'.faces) (lookup id s'.persons) s'
    some (length (keep (detached id aids) s.faces), s'')

  unfoldable pub detach_assets_from_person :
      Faults → Text → List Text → Store r.F → Store r.F × Outcome ℕ
  detach_assets_from_person f id aids s =
      if is_empty id
      then (s, not_found)
      else if length aids == 0
      then (s, done 0)
      else if f.begin || f.check
      then (s, db_error)
      else if not (exists id s)
      then (s, not_found)
      else if f.select
      then (s, db_error)
      else if any (detached id aids) s.faces
      then finish f.commit (detach_body f id aids s) s
      else (s, done 0)
