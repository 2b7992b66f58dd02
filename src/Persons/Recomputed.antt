-- ===== src/Persons/Recomputed.antt =====
-- The recompute of one person makes the store agree again.
use nimo_os_photos.Prelude.{
  ℕ, ◌≡◌, refl, sym, subst, ◌∙◌, Bool, true, false, ◌&&◌, Option, none, some, List, [], ◌∷◌, Text,
  text_Eq, text_eq_refl, keep, any, lookup, get_elem?-any, any-keep, Float64, >>=-eq-some, arith,
  inl, inr, Bool-cases,
}
use mathlib.Core.Option.{some_inj}
use nimo_os_photos.Persons.Rows.{Face, Person, Store, Measures, active}
use nimo_os_photos.Persons.Cover.{
  is_face, cleared, keeps_cover, face_at, reselect, recomputed, recompute_found, recompute_faces,
  recompute_one_centroid, select_cover_face,
}
use nimo_os_photos.Persons.Groups.{cover_ok, hero_ok, Agree, Ready, update-Agree}

module _ (r : Float64) (m : Measures r.F) (id : Text) where
  face_at-is_face :
      (fs : List Face) (o : Option ℕ) (f : Face)
      → face_at r m fs o ≡ some f
      → any (is_face (some f.id)) fs ≡ true
  face_at-is_face fs none f h = absurd (cc)
  face_at-is_face fs (some i) f h = get_elem?-any (is_face (some f.id)) fs i f h (text_eq_refl f.id)

  -- A row after the recompute: its cover is one of the faces, and its hero is as before.
  abbrev Chosen : List Face → Person r.F → Person r.F → Type 0
  Chosen fs p p' = (any (is_face p'.cover_face_id) fs ≡ true) × (p'.hero_asset_id ≡ p.hero_asset_id)

  reselect-Chosen :
      (fs : List Face) (o : Option Face) (p p' : Person r.F)
      → ((f : Face) → o ≡ some f → any (is_face (some f.id)) fs ≡ true)
      → reselect r m fs o p ≡ some p'
      → Chosen fs p p'
  reselect-Chosen fs none p p' h k = absurd (cc)
  reselect-Chosen fs (some f) p p' h k = subst (Chosen fs p) (some_inj.0 k) (h f refl, refl)

  recomputed-Chosen :
      (fs : List Face) (p p' : Person r.F) → recomputed r m fs p ≡ some p' → Chosen fs p p'
  recomputed-Chosen fs p p' = elim (Bool-cases (keeps_cover r m fs p)) [
    | inl e ↦ rw e (λ h. subst (Chosen fs p) (some_inj.0 h) (ground (arith, e), refl))
    | inr e ↦ rw e (reselect-Chosen fs (face_at r m fs best) p p' (face_at-is_face fs best))
  ]
    where
      best : Option ℕ
      best = select_cover_face r m fs (m.compute_centroid fs)

  Chosen-ok :
      (fs : List Face) (p p' : Person r.F)
      → Chosen (keep (active id) fs) p p'
      → hero_ok id fs p ≡ true
      → (cover_ok id fs p' && hero_ok id fs p') ≡ true
  Chosen-ok fs p p' (c, e) h =
      rw e (ground (arith, c, h, any-keep (is_face p'.cover_face_id) (active id) fs))

  recompute_found-Agree :
      (o : Option (Person r.F)) (s s' : Store r.F)
      → lookup id s.persons ≡ o
      → Ready id s
      → recompute_found r m id (keep (active id) s.faces) o s ≡ some s'
      → Agree s'
  recompute_found-Agree none s s' e h k = absurd (cc)
  recompute_found-Agree (some p) s s' e h k =
      let (p', c, d) = >>=-eq-some (recomputed r m (keep (active id) s.faces) p) _ k in
      subst Agree (some_inj.0 d) (
        update-Agree id (λ _. p') s h
          λ p2 e2 hero.
            Chosen-ok s.faces p p' (recomputed-Chosen (keep (active id) s.faces) p p' c)
              (subst (λ x. hero_ok id s.faces x ≡ true) (some_inj.0 (sym e2 ∙ e)) hero))

  recompute_faces-Agree :
      (fs : List Face) (s s' : Store r.F)
      → keep (active id) s.faces ≡ fs
      → Ready id s
      → recompute_faces r m id fs s ≡ some s'
      → Agree s'
  recompute_faces-Agree [] s s' e h k =
      subst Agree (some_inj.0 k) (update-Agree id (cleared r m) s h λ p e2 hero. refl)
  recompute_faces-Agree (f ∷ fs) s s' e h k =
      recompute_found-Agree (lookup id s.persons) s s' refl h (rw e k)

  -- The recompute of one person makes the store agree again.
  pub recompute-Agree :
      (fault : Bool) (s s' : Store r.F)
      → Ready id s
      → recompute_one_centroid r m fault id s ≡ some s'
      → Agree s'
  unfolding recompute_one_centroid
  recompute-Agree true s s' h k = absurd (cc)
  recompute-Agree false s s' h k = recompute_faces-Agree (keep (active id) s.faces) s s' refl h k
