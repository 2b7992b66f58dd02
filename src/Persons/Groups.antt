-- ===== src/Persons/Groups.antt =====
-- How the faces, the persons and their covers agree.
use nimo_os_photos.Prelude.{
  ◌≡◌, refl, ap, subst, ◌∙◌, Bool, true, false, ◌&&◌, ◌||◌, not, Option, none, some, List, map,
  Text, text_Eq, text_eq, text_eq_iff, any, any-map, any_cong, lookup, lookup-alter, arith, inl,
  inr, Bool-cases,
}
use mathlib.Core.Option as Option
use mathlib.Core.Option.{some_inj}
use nimo_os_photos.Persons.Rows.{Face, Person, Store, bound_to, active, update}
use nimo_os_photos.Persons.Cover.{given, is_face}

-- The cover is one of the active faces of the person, and the hero an asset with such a face.
abbrev pub cover_ok : {F : Type 0} → Text → List Face → Person F → Bool
cover_ok q fs p =
    not (given p.cover_face_id) || any (λ f. active q f && is_face p.cover_face_id f) fs

abbrev pub of_asset : Option Text → Face → Bool
of_asset none f = true
of_asset (some a) f = text_eq f.asset_id a

abbrev pub hero_ok : {F : Type 0} → Text → List Face → Person F → Bool
hero_ok q fs p =
    not (given p.hero_asset_id) || any (λ f. active q f && of_asset p.hero_asset_id f) fs

-- What holds of one id: a person that is not there has no face. The flag leaves the cover out.
abbrev pub holds : {F : Type 0} → Bool → Text → List Face → Option (Person F) → Bool
holds b q fs none = not (any (bound_to q) fs)
holds b q fs (some p) = (b || cover_ok q fs p) && hero_ok q fs p

abbrev pub agrees : {F : Type 0} → Text → List Face → Option (Person F) → Bool
agrees q fs o = holds false q fs o

abbrev pub Agree : {F : Type 0} → Store F → Type 0
Agree s = (q : Text) → agrees q s.faces (lookup q s.persons) ≡ true

-- A change of the faces that leaves those of q alone leaves what holds of q.
module _ (q : Text) (g : Face → Face) (same_owner : (f : Face) → bound_to q (g f) ≡ bound_to q f)
    (same_face : (f : Face) → bound_to q f ≡ true → g f ≡ f) where
  same_active : (t : Face → Bool) (f : Face) → (active q (g f) && t (g f)) ≡ (active q f && t f)
  same_active t f = elim (Bool-cases (bound_to q f)) [
    | inl e ↦ ap (λ x. active q x && t x) (same_face f e)
    | inr e ↦ rw (same_owner f, e) refl
  ]

  any-same :
      (t : Face → Bool) (fs : List Face)
      → any (λ f. active q f && t f) (map g fs) ≡ any (λ f. active q f && t f) fs
  any-same t fs = any-map (λ f. active q f && t f) g fs ∙ any_cong _ _ fs (same_active t)

  pub holds-map :
      {F : Type 0} (b : Bool) (fs : List Face) (o : Option (Person F))
      → holds b q (map g fs) o ≡ holds b q fs o
  holds-map b fs none = ap not (any-map (bound_to q) g fs ∙ any_cong _ _ fs same_owner)
  holds-map b fs (some p) =
      rw (any-same (is_face p.cover_face_id) fs, any-same (of_asset p.hero_asset_id) fs) refl

-- What holds of an id while the cover of the person `id` is still to be recomputed.
abbrev pub ready : {F : Type 0} → Text → Text → List Face → Option (Person F) → Bool
ready id q fs o = holds (text_eq id q) q fs o

abbrev pub Ready : {F : Type 0} → Text → Store F → Type 0
Ready id s = (q : Text) → ready id q s.faces (lookup q s.persons) ≡ true

module _ {F : Type 0} (id : Text) where
  ready-agrees :
      (q : Text) (fs : List Face) (o : Option (Person F))
      → text_eq id q ≡ false
      → ready id q fs o ≡ true
      → agrees q fs o ≡ true
  ready-agrees q fs none h k = k
  ready-agrees q fs (some p) h k = ground (arith, h, k)

  pub agrees-ready :
      (q : Text) (fs : List Face) (o : Option (Person F))
      → agrees q fs o ≡ true
      → ready id q fs o ≡ true
  agrees-ready q fs none k = k
  agrees-ready q fs (some p) k = ground (arith, k)

  -- The row of the person changed, so that it is right again.
  updated :
      (g : Person F → Person F) (fs : List Face) (o : Option (Person F))
      → ((p : Person F)
          → o ≡ some p
          → hero_ok id fs p ≡ true
          → (cover_ok id fs (g p) && hero_ok id fs (g p)) ≡ true)
      → ready id id fs o ≡ true
      → agrees id fs (Option.map g o) ≡ true
  updated g fs none h k = k
  updated g fs (some p) h k = h p refl (ground (arith, k))

  pub update-Agree :
      (g : Person F → Person F) (s : Store F)
      → Ready id s
      → ((p : Person F)
          → lookup id s.persons ≡ some p
          → hero_ok id s.faces p ≡ true
          → (cover_ok id s.faces (g p) && hero_ok id s.faces (g p)) ≡ true)
      → Agree (update id g s)
  update-Agree g s h k q =
      ap (agrees q s.faces) (lookup-alter id q g s.persons) ∙ elim (Bool-cases (text_eq id q)) [
        | inl e ↦ rw e (
            subst (λ x. agrees x s.faces (Option.map g (lookup x s.persons)) ≡ true)
              ((text_eq_iff id q).0 e) (updated g s.faces (lookup id s.persons) k (h id)))
        | inr e ↦ rw e (ready-agrees q s.faces (lookup q s.persons) e (h q))
      ]
