-- ===== src/Persons/Scheduled.antt =====
-- Statements that keep a person and leave it without a scheduled purge.
use nimo_os_photos.Prelude.{
  ℕ, ◌≡◌, refl, ap, subst, ◌∙◌, Bool, true, false, ◌&&◌, not, Option, none, some, map, Text,
  text_Eq, text_eq, lookup, lookup-alter, lookup-delete, is_some, arith, inl, inr, Bool-cases,
  if◌then◌else◌,
}
use mathlib.Core.Option as Option
use mathlib.Core.Option.{some_inj}
use nimo_os_photos.Persons.Rows.{
  Person, Store, Faults, Outcome, exists, update, delete_person, finish, exec,
}
use nimo_os_photos.Persons.Edits.{is_anchored, delete_if_empty}
use nimo_os_photos.Persons.Purge.{exclude, purge_person_rows, purge_tx, row_due, is_due}
use nimo_os_photos.Persons.OneRow.{KeptRow}

-- The person is there and no purge is scheduled.
abbrev pub safe : {F : Type 0} → Option (Person F) → Bool
safe none = false
safe (some p) = not (is_some p.purge_at)

abbrev pub Safe : {F : Type 0} → Text → Store F → Type 0
Safe q s = safe (lookup q s.persons) ≡ true

-- A row that keeps its purge_at.
pub safe-map :
    {F : Type 0} (g : Person F → Person F) (o : Option (Person F))
    → ((p : Person F) → safe (some p) ≡ true → safe (some (g p)) ≡ true)
    → safe o ≡ true
    → safe (Option.map g o) ≡ true
safe-map g none h k = k
safe-map g (some p) h k = h p k

pub KeptRow-safe :
    {F : Type 0} (o o' : Option (Person F)) → KeptRow o o' → safe o ≡ true → safe o' ≡ true
KeptRow-safe none o' h k = absurd (cc)
KeptRow-safe (some p) o' (p', e, kept) k = rw (e, kept.4) k

pub safe-due :
    {F : Type 0} (now : ℕ) (o : Option (Person F)) → safe o ≡ true → row_due now o ≡ false
safe-due now none h = refl
safe-due now (some p) h = due (p.purge_at) h
  where
    due : (t : Option ℕ) → not (is_some t) ≡ true → (p.hidden && is_due now t) ≡ false
    due none h = ground arith
    due (some t) h = absurd (cc)

module _ {F : Type 0} (q : Text) where
  pub update-Safe :
      (id : Text) (g : Person F → Person F) (s : Store F)
      → ((p : Person F) → safe (some p) ≡ true → safe (some (g p)) ≡ true)
      → Safe q s
      → Safe q (update id g s)
  update-Safe id g s h k =
      ap safe (lookup-alter id q g s.persons) ∙ elim (Bool-cases (text_eq id q)) [
        | inl e ↦ rw e (safe-map g (lookup q s.persons) h k)
        | inr e ↦ rw e k
      ]

  pub other-Safe :
      (id : Text) (g : Person F → Person F) (s : Store F)
      → text_eq id q ≡ false
      → Safe q s
      → Safe q (update id g s)
  other-Safe id g s e k = ap safe (lookup-alter id q g s.persons) ∙ rw e k

  pub delete-Safe :
      (id : Text) (s : Store F) → text_eq id q ≡ false → Safe q s → Safe q (delete_person id s)
  delete-Safe id s e k = ap safe (lookup-delete id q s.persons) ∙ rw e k

  pub Safe-if :
      {A : Type 0} (b : Bool) (x y : Store F × Outcome A)
      → Safe q x.0
      → Safe q y.0
      → Safe q (if b then x else y).0
  Safe-if true x y h k = h
  Safe-if false x y h k = k

  pub finish-Safe :
      {A : Type 0} (fault : Bool) (o : Option (A × Store F)) (s : Store F)
      → Safe q s
      → ((a : A) (s' : Store F) → o ≡ some (a, s') → Safe q s')
      → Safe q (finish fault o s).0
  finish-Safe fault none s h k = h
  finish-Safe fault (some (a, s')) s h k = Safe-if fault _ _ h (k a s' refl)

  pub exec-Safe :
      (fault : Bool) (id : Text) (g : Person F → Person F) (s : Store F)
      → Safe q (update id g s)
      → Safe q s
      → Safe q (exec fault id g s).0
  exec-Safe fault id g s k h = Safe-if fault _ _ h (Safe-if (exists id s) _ _ k h)

  pub purge_tx-Safe :
      (f : Faults) (id : Text) (s : Store F)
      → text_eq id q ≡ false
      → Safe q s
      → Safe q (purge_tx f id s).0
  unfolding purge_person_rows
  purge_tx-Safe f id s e h = elim (Bool-cases f.write) [
    | inl w ↦ rw w h
    | inr w ↦ rw w (
        finish-Safe f.commit (some (tt, purge_person_rows id s)) s h λ a s' k.
          subst (λ (x : Unit {0} × Store F). Safe q x.1) (some_inj.0 k)
            (delete-Safe id (record s { faces = map (exclude id) s.faces }) e h))
  ]

  pub delete_if_empty-Safe :
      (id : Text) (b : Bool) (o : Option (Person F)) (s s' : Store F)
      → text_eq id q ≡ false
      → Safe q s
      → delete_if_empty id b o s ≡ some s'
      → Safe q s'
  delete_if_empty-Safe id true o s s' e h k = subst (Safe q) (some_inj.0 k) h
  delete_if_empty-Safe id false none s s' e h k = absurd (cc)
  delete_if_empty-Safe id false (some p) s s' e h k =
      subst (Safe q) (some_inj.0 k)
        (elim (Bool-cases (is_anchored p)) [ inl a ↦ rw a h | inr a ↦ rw a (delete-Safe id s e h) ])
