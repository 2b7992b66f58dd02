-- ===== src/Persons/Detached.antt =====
-- Taking assets off a person leaves everything in agreement, and so does any sequence of calls.
use nimo_os_photos.Prelude.{
  ℕ, ◌≡◌, refl, ap, subst, ◌∙◌, Bool, true, false, ◌&&◌, ◌||◌, not, Option, none, some, List, map,
  Text, text_Eq, text_eq, text_eq_iff, text_mem, is_empty, keep, any, any-map, any_mono, length,
  lookup, lookup-alter, Float64, ◌>>=◌, >>=-eq-some, is_some, arith, inl, inr, Bool-cases,
  if◌then◌else◌, ◌==◌,
}
use mathlib.Core.Option as Option
use mathlib.Core.Option.{some_inj}
use nimo_os_photos.Persons.Rows.{Face, Person, Store, Measures, Faults, bound_to, active, exists}
use nimo_os_photos.Persons.Cover.{given, recompute_one_centroid}
use nimo_os_photos.Persons.Edits.{
  is_anchored, detached, detach_face, hero_gone, clear_hero, delete_if_empty, detach_body,
  detach_assets_from_person,
}
use nimo_os_photos.Persons.Groups.{of_asset, hero_ok, holds, agrees, Agree, ready, Ready}
use nimo_os_photos.Persons.Recomputed.{recompute-Agree}
use nimo_os_photos.Persons.Deletion.{Touches, touched-holds, delete-holds, Agree-if, finish-Agree}

module _ (id : Text) (aids : List Text) where
  detach-Touches : (q : Text) → Touches id q (detach_face id aids)
  detach-Touches q f = elim (Bool-cases (detached id aids f)) [
    | inl e ↦ inr (ground (arith, e), rw e refl)
    | inr e ↦ inl (rw e refl)
  ]

  -- A face on an asset that is not among them stays.
  stays :
      (t : Text) (f : Face)
      → text_mem t aids ≡ false
      → (active id f && text_eq f.asset_id t) ≡ true
      → detach_face id aids f ≡ f
  stays t f h k =
      let same : text_mem f.asset_id aids ≡ text_mem t aids =
        ap (λ a. text_mem a aids) ((text_eq_iff f.asset_id t).0 (ground (arith, k))) in
      rw (same, h) (ground arith)

  still_any :
      (t : Text) (fs : List Face)
      → text_mem t aids ≡ false
      → any (λ f. active id f && text_eq f.asset_id t) fs ≡ true
      → any (λ f. active id f && text_eq f.asset_id t) (map (detach_face id aids) fs) ≡ true
  still_any t fs h k =
      any-map (λ f. active id f && text_eq f.asset_id t) (detach_face id aids) fs
      ∙ any_mono _ _ fs (λ f e. ap (λ g. active id g && text_eq g.asset_id t) (stays t f h e) ∙ e) k

  hero_kept :
      (h : Option Text) (fs : List Face)
      → hero_gone aids h ≡ false
      → (not (given h) || any (λ f. active id f && of_asset h f) fs) ≡ true
      → (not (given h) || any (λ f. active id f && of_asset h f) (map (detach_face id aids) fs))
        ≡ true
  hero_kept none fs e k = refl
  hero_kept (some t) fs e k = elim (Bool-cases (is_empty t)) [
    | inl b ↦ rw b refl
    | inr b ↦ ground (arith, e, k, b, still_any t fs)
  ]

  module _ {F : Type 0} where
    without_hero : Person F → Person F
    without_hero p = if hero_gone aids p.hero_asset_id then record p { hero_asset_id = none } else p

    cleared-hero_ok :
        (fs : List Face) (p : Person F)
        → hero_ok id fs p ≡ true
        → hero_ok id (map (detach_face id aids) fs) (without_hero p) ≡ true
    unfolding without_hero
    cleared-hero_ok fs p h = elim (Bool-cases (hero_gone aids p.hero_asset_id)) [
      | inl e ↦ rw e refl
      | inr e ↦ rw e (hero_kept p.hero_asset_id fs e h)
    ]

    detached-holds :
        (fs : List Face) (o : Option (Person F))
        → is_some o ≡ true
        → agrees id fs o ≡ true
        → holds true id (map (detach_face id aids) fs) (Option.map without_hero o) ≡ true
    detached-holds fs none h k = absurd (cc)
    detached-holds fs (some p) h k = cleared-hero_ok fs p (ground (arith, k))

    detached-Ready :
        (s : Store F)
        → exists id s ≡ true
        → Agree s
        → Ready id (clear_hero id aids (record s { faces = map (detach_face id aids) s.faces }))
    unfolding without_hero
    detached-Ready s there h q =
        ap (ready id q (map (detach_face id aids) s.faces))
          (lookup-alter id q without_hero s.persons)
        ∙ elim (Bool-cases (text_eq id q)) [
          | inl e ↦ rw e (
              subst
                (λ x.
                  holds true x (map (detach_face id aids) s.faces)
                    (Option.map without_hero (lookup x s.persons))
                  ≡ true)
                ((text_eq_iff id q).0 e)
                (detached-holds s.faces (lookup id s.persons) there (h id)))
          | inr e ↦ rw e (
              touched-holds id q (detach_face id aids) e (detach-Touches q) false s.faces
                (lookup q s.persons)
              ∙ h q)
        ]

delete_if_empty-Agree :
    {F : Type 0} (id : Text) (b : Bool) (o : Option (Person F)) (s s' : Store F)
    → Agree s
    → delete_if_empty id b o s ≡ some s'
    → Agree s'
delete_if_empty-Agree id true o s s' h k = subst Agree (some_inj.0 k) h
delete_if_empty-Agree id false none s s' h k = absurd (cc)
delete_if_empty-Agree id false (some p) s s' h k =
    subst Agree (some_inj.0 k) (elim (Bool-cases (is_anchored p)) [
      | inl e ↦ rw e h
      | inr e ↦ rw e (delete-holds (λ q. false) id s (λ q d. h q))
    ])

module _ (r : Float64) (m : Measures r.F) where
  detach_body-Agree :
      (f : Faults) (id : Text) (aids : List Text) (s s' : Store r.F) (n : ℕ)
      → exists id s ≡ true
      → Agree s
      → detach_body r m f id aids s ≡ some (n, s')
      → Agree s'
  detach_body-Agree f id aids s s' n there h k =
      let s1 : Store r.F =
        clear_hero id aids (record s { faces = map (detach_face id aids) s.faces }) in
      let (z, c, d) =
        >>=-eq-some (recompute_one_centroid r m (f.write || f.recompute) id s1)
          (λ z. delete_if_empty id (any (bound_to id) z.faces) (lookup id z.persons) z >>= λ y.
            some (length (keep (detached id aids) s.faces), y))
          k in
      let (y, e, g) =
        >>=-eq-some (delete_if_empty id (any (bound_to id) z.faces) (lookup id z.persons) z)
          (λ y. some (length (keep (detached id aids) s.faces), y)) d in
      subst (λ (x : ℕ × Store r.F). Agree x.1) (some_inj.0 g)
        (delete_if_empty-Agree id (any (bound_to id) z.faces) (lookup id z.persons) z y
          (recompute-Agree r m id (f.write || f.recompute) s1 z (detached-Ready id aids s there h)
            c)
          e)

  pub detach_assets_from_person-Agree :
      (f : Faults) (id : Text) (aids : List Text) (s : Store r.F)
      → Agree s
      → Agree (detach_assets_from_person r m f id aids s).0
  unfolding detach_assets_from_person
  detach_assets_from_person-Agree f id aids s h = Agree-if (is_empty id) _ _ h (
      Agree-if (length aids == 0) _ _ h (
        Agree-if (f.begin || f.check) _ _ h (elim (Bool-cases (exists id s)) [
          | inr e ↦ rw e h
          | inl e ↦ rw e (
              Agree-if f.select _ _ h (
                Agree-if (any (detached id aids) s.faces) _ _
                  (finish-Agree f.commit _ s h λ n s' k. detach_body-Agree f id aids s s' n e h k)
                  h))
        ])))
