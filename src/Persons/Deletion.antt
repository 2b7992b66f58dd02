-- ===== src/Persons/Deletion.antt =====
-- Statements that touch only the faces of one person, and the deletion of a person.
use nimo_os_photos.Prelude.{
  ◌≡◌, refl, ap, sym, ◌∙◌, Bool, true, false, Option, none, some, List, map, Text, text_Eq, text_eq,
  text_eq_iff, any-map, any_none, lookup, lookup-delete, arith, inl, inr, Bool-cases, ◌⊎◌,
  if◌then◌else◌,
}
use nimo_os_photos.Persons.Rows.{
  Face, Person, Store, Outcome, is_person, bound_to, unbind, exists, update, delete_person, finish,
  exec,
}
use nimo_os_photos.Persons.Groups.{holds, holds-map, agrees, Agree, agrees-ready, update-Agree}

-- A face is bound to one person at most.
is_person-ne :
    (p q : Text) (o : Option Text)
    → text_eq p q ≡ false
    → is_person p o ≡ true
    → is_person q o ≡ false
is_person-ne p q none h k = refl
is_person-ne p q (some x) h k =
    ground (arith, h, k, text_eq_iff x p, text_eq_iff x q, text_eq_iff p q)

-- A change of the faces of p that binds none to q.
abbrev pub Touches : Text → Text → (Face → Face) → Type 0
Touches p q g = (f : Face) → (g f ≡ f) ⊎ ((bound_to p f ≡ true) × (bound_to q (g f) ≡ false))

module _ (p q : Text) (g : Face → Face) (differ : text_eq p q ≡ false)
    (touches : Touches p q g) where
  touched_owner : (f : Face) → bound_to q (g f) ≡ bound_to q f
  touched_owner f = elim (touches f) [
    | inl same ↦ ap (bound_to q) same
    | inr (e, gone) ↦ gone ∙ sym (is_person-ne p q f.person_id differ e)
  ]

  touched_face : (f : Face) → bound_to q f ≡ true → g f ≡ f
  touched_face f h = elim (touches f) [ inl same ↦ same | inr (e, gone) ↦ absurd (clash f h e) ]
    where
      clash : (f : Face) → bound_to q f ≡ true → bound_to p f ≡ true → ⊥
      clash f h e = ground (arith, is_person-ne p q f.person_id differ, h, e)

  pub touched-holds :
      {F : Type 0} (b : Bool) (fs : List Face) (o : Option (Person F))
      → holds b q (map g fs) o ≡ holds b q fs o
  touched-holds b fs o = holds-map q g touched_owner touched_face b fs o

unbind-Touches : (p q : Text) → Touches p q (unbind p)
unbind-Touches p q f = elim (Bool-cases (bound_to p f)) [
  | inl e ↦ inr (e, rw e refl)
  | inr e ↦ inl (rw e refl)
]

unbound : (p : Text) (f : Face) → bound_to p (unbind p f) ≡ false
unbound p f = ground arith

module _ {F : Type 0} where
  -- A deleted person is gone, and the others are as they were.
  pub delete-holds :
      (b : Text → Bool) (p : Text) (s : Store F)
      → ((q : Text) → text_eq p q ≡ false → holds (b q) q s.faces (lookup q s.persons) ≡ true)
      → (q : Text)
      → holds (b q) q (delete_person p s).faces (lookup q (delete_person p s).persons) ≡ true
  delete-holds b p s h q =
      ap (holds (b q) q (map (unbind p) s.faces)) (lookup-delete p q s.persons)
      ∙ elim (Bool-cases (text_eq p q)) [
        | inl e ↦
            rw
              (
                e,
                any-map (bound_to q) (unbind p) s.faces,
                any_none (λ f. bound_to q (unbind p f)) s.faces
                    λ f.
                      ap (λ x. bound_to x (unbind p f)) (sym ((text_eq_iff p q).0 e)) ∙ unbound p f,
              )
              refl
        | inr e ↦ rw e (
            touched-holds p q (unbind p) e (unbind-Touches p q) (b q) s.faces (lookup q s.persons)
            ∙ h q e)
      ]

  -- A change of a row that keeps what holds of it.
  pub update_kept :
      (id : Text) (g : Person F → Person F) (s : Store F)
      → Agree s
      → ((p : Person F) → agrees id s.faces (some p) ≡ true → agrees id s.faces (some (g p)) ≡ true)
      → Agree (update id g s)
  update_kept id g s h k =
      update-Agree id g s (λ q. agrees-ready id q s.faces (lookup q s.persons) (h q))
        λ p e hero. k p (ap (agrees id s.faces) (sym e) ∙ h id)

  pub Agree-if :
      {A : Type 0} (b : Bool) (x y : Store F × Outcome A)
      → Agree x.0
      → Agree y.0
      → Agree (if b then x else y).0
  Agree-if true x y h k = h
  Agree-if false x y h k = k

  pub exec-Agree :
      (fault : Bool) (id : Text) (g : Person F → Person F) (s : Store F)
      → Agree s
      → ((p : Person F) → agrees id s.faces (some p) ≡ true → agrees id s.faces (some (g p)) ≡ true)
      → Agree (exec fault id g s).0
  exec-Agree fault id g s h k =
      Agree-if fault _ _ h (Agree-if (exists id s) _ _ (update_kept id g s h k) h)

  pub finish-Agree :
      {A : Type 0} (fault : Bool) (o : Option (A × Store F)) (s : Store F)
      → Agree s
      → ((a : A) (s' : Store F) → o ≡ some (a, s') → Agree s')
      → Agree (finish fault o s).0
  finish-Agree fault none s h k = h
  finish-Agree fault (some (a, s')) s h k = Agree-if fault _ _ h (k a s' refl)
