-- ===== src/Persons/Regrouped.antt =====
-- The calls that recompute a person, and the choice of a cover by the user, leave everything in agreement.
use nimo_os_photos.Prelude.{
  ◌≡◌, refl, ap, sym, subst, ◌∙◌, Bool, true, false, ◌&&◌, ◌||◌, Option, none, some, List, [], ◌∷◌,
  map, Text, text_Eq, text_eq, text_eq_iff, text_eq_refl, keep, any, any-map, any-keep, any_mono,
  lookup, Float64, >>=-eq-some, is_some, arith, inl, inr, Bool-cases, if◌then◌else◌,
}
use mathlib.Core.Option.{some_inj}
use nimo_os_photos.Persons.Rows.{
  Face, Person, Store, Measures, Faults, bound_to, active, exists, update,
}
use nimo_os_photos.Persons.Cover.{is_face, recompute_one_centroid}
use nimo_os_photos.Persons.Edits.{
  move_face, merged, best_area, pinned_cover, cover_read, set_cover_of, set_person_cover, unlocked,
  unlock_person_cover, merge_body, merge_persons,
}
use nimo_os_photos.Persons.Groups.{of_asset, hero_ok, holds, agrees, Agree, Ready, agrees-ready}
use nimo_os_photos.Persons.Recomputed.{recompute-Agree}
use nimo_os_photos.Persons.Deletion.{
  Touches, touched-holds, delete-holds, update_kept, Agree-if, finish-Agree,
}

-- Faces of from that move to into.
move-Touches : (from into q : Text) → text_eq into q ≡ false → Touches from q (move_face from into)
move-Touches from into q h f = elim (Bool-cases (bound_to from f)) [
  | inl e ↦ inr (e, rw e h)
  | inr e ↦ inl (rw e refl)
]

-- An active face of into stays one.
move-active :
    (from into : Text) (t : Face → Bool) (f : Face)
    → ((g : Face) (o : Option Text) → t (record g { person_id = o }) ≡ t g)
    → (active into f && t f) ≡ true
    → (active into (move_face from into f) && t (move_face from into f)) ≡ true
move-active from into t f same h = elim (Bool-cases (bound_to from f)) [
  | inl e ↦ rw (e, same f (some into), text_eq_refl into) (ground (arith, h))
  | inr e ↦ rw e h
]

of_asset-owner :
    (a : Option Text) (g : Face) (o : Option Text)
    → of_asset a (record g { person_id = o }) ≡ of_asset a g
of_asset-owner none g o = refl
of_asset-owner (some a) g o = refl

module _ {F : Type 0} (from into : Text) where
  hero-move :
      (fs : List Face) (p : Person F)
      → hero_ok into fs p ≡ true
      → hero_ok into (map (move_face from into) fs) p ≡ true
  hero-move fs p h =
      let more =
        any_mono _
          (λ f.
            active into (move_face from into f) && of_asset p.hero_asset_id (move_face from into f))
          fs
          (λ f k.
            move-active from into (of_asset p.hero_asset_id) f (of_asset-owner p.hero_asset_id)
              k) in
      ground (
        arith,
        h,
        more,
        any-map (λ f. active into f && of_asset p.hero_asset_id f) (move_face from into) fs,
      )

  into-holds :
      (fs : List Face) (o : Option (Person F))
      → is_some o ≡ true
      → agrees into fs o ≡ true
      → holds true into (map (move_face from into) fs) o ≡ true
  into-holds fs none h k = absurd (cc)
  into-holds fs (some p) h k = hero-move fs p (ground (arith, k))

  merged-Ready : (s : Store F) → exists into s ≡ true → Agree s → Ready into (merged from into s)
  merged-Ready s there h =
      delete-holds (λ q. text_eq into q) from
        (record s { faces = map (move_face from into) s.faces })
        λ q e. elim (Bool-cases (text_eq into q)) [
          | inl d ↦ rw d (
              subst
                (λ x. holds true x (map (move_face from into) s.faces) (lookup x s.persons) ≡ true)
                ((text_eq_iff into q).0 d)
                (into-holds s.faces (lookup into s.persons) there (h into)))
          | inr d ↦ rw d (
              touched-holds from q (move_face from into) e (move-Touches from into q d) false
                s.faces (lookup q s.persons)
              ∙ h q)
        ]

among_both :
    (b : Bool) (x y : Face) (fs : List Face) (p : Face → Bool)
    → any p ((if b then y else x) ∷ fs) ≡ true
    → any p (x ∷ y ∷ fs) ≡ true
among_both true x y fs p h = ground (arith, h)
among_both false x y fs p h = ground (arith, h)

module _ (r : Float64) (m : Measures r.F) where
  merge_body-Agree :
      (f : Faults) (from into : Text) (s s' : Store r.F) (a : Unit {0})
      → exists into s ≡ true
      → Agree s
      → merge_body r m f from into s ≡ some (a, s')
      → Agree s'
  merge_body-Agree f from into s s' a there h k =
      let (z, c, d) =
        >>=-eq-some (recompute_one_centroid r m (f.write || f.recompute) into (merged from into s))
          _ k in
      subst (λ (x : Unit {0} × Store r.F). Agree x.1) (some_inj.0 d)
        (recompute-Agree r m into (f.write || f.recompute) (merged from into s) z
          (merged-Ready from into s there h) c)

  pub merge_persons-Agree :
      (f : Faults) (from into : Text) (s : Store r.F)
      → Agree s
      → Agree (merge_persons r m f from into s).0
  unfolding merge_persons
  merge_persons-Agree f from into s h = Agree-if (text_eq from into) _ _ h (
      Agree-if (f.begin || f.check) _ _ h (elim (Bool-cases (exists from s && exists into s)) [
        | inl e ↦ rw e (
            finish-Agree f.commit _ s h
              λ a s' k. merge_body-Agree f from into s s' a (ground (arith, e)) h k)
        | inr e ↦ rw e h
      ]))

  unlocked-Agree :
      (f : Faults) (id : Text) (s s' : Store r.F) (a : Option Text)
      → Agree s
      → unlocked r m f id s ≡ some (a, s')
      → Agree s'
  unlocked-Agree f id s s' a h k =
      let s1 : Store r.F = update id (λ p. record p { cover_locked = false }) s in
      let (z, c, d) = >>=-eq-some (recompute_one_centroid r m (f.write || f.recompute) id s1) _ k in
      let (cover, _, e) =
        >>=-eq-some (if f.select then none else cover_read r m (lookup id z.persons))
          (λ c. some (c, z)) d in
      subst (λ (x : Option Text × Store r.F). Agree x.1) (some_inj.0 e)
        (recompute-Agree r m id (f.write || f.recompute) s1 z
          (λ q.
            agrees-ready id q s1.faces (lookup q s1.persons) (update_kept id _ s h (λ p k. k) q))
          c)

  pub unlock_person_cover-Agree :
      (f : Faults) (id : Text) (s : Store r.F) → Agree s → Agree (unlock_person_cover r m f id s).0
  unfolding unlock_person_cover
  unlock_person_cover-Agree f id s h = Agree-if (f.begin || f.check) _ _ h (
      Agree-if (exists id s) _ _
        (finish-Agree f.commit _ s h λ a s' k. unlocked-Agree f id s s' a h k) h)

  best_area-is_face :
      (best : Face) (fs : List Face)
      → any (is_face (some (best_area r m best fs).id)) (best ∷ fs) ≡ true
  best_area-is_face best [] = ground (arith, text_eq_refl best.id)
  best_area-is_face best (f ∷ fs) =
      let next : Face = if r.lt (m.area best) (m.area f) then f else best in
      among_both (r.lt (m.area best) (m.area f)) best f fs
        (is_face (some (best_area r m next fs).id)) (best_area-is_face next fs)

  set_cover_of-Agree :
      (fault : Bool) (id aid : Text) (fs : List Face) (s : Store r.F)
      → keep (λ g. active id g && text_eq g.asset_id aid) s.faces ≡ fs
      → Agree s
      → Agree (set_cover_of r m fault id aid fs s).0
  set_cover_of-Agree fault id aid [] s e h = h
  set_cover_of-Agree fault id aid (f ∷ fs) s e h =
      let best : Face = best_area r m f fs in
      let among = ap (any (is_face (some best.id))) e ∙ best_area-is_face f fs in
      let bound =
        any_mono (λ g. (active id g && text_eq g.asset_id aid) && is_face (some best.id) g)
          (λ g. active id g && is_face (some best.id) g) s.faces (λ g k. ground (arith, k))
          (sym (
              any-keep (is_face (some best.id)) (λ g. active id g && text_eq g.asset_id aid)
                s.faces)
            ∙ among) in
      Agree-if fault _ _ h (
        Agree-if (exists id s) _ _
          (update_kept id (pinned_cover r m best aid) s h λ p k. ground (arith, k, bound)) h)

  pub set_person_cover-Agree :
      (f : Faults) (id aid : Text) (s : Store r.F)
      → Agree s
      → Agree (set_person_cover r m f id aid s).0
  unfolding set_person_cover
  set_person_cover-Agree f id aid s h =
      Agree-if f.select _ _ h (set_cover_of-Agree f.write id aid _ s refl h)
