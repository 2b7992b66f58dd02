-- ===== src/Moments/Edited.antt =====
-- PinMomentAssets and ExcludeMomentAssets leave the count and the cover of the moment right.
use nimo_os_photos.Prelude.{
  ℕ, ◌≤◌, ◌≡◌, refl, ap, subst, ◌∙◌, Bool, true, false, not, Option, none, some, List, [], ◌∷◌,
  Text, text_Eq, pair_Eq, lookup, delete, is_some, ◌==◌, ==_iff, Float64, ◌>>=◌, >>=-eq-some, arith,
  inl, inr, Bool-cases, if◌then◌else◌,
}
use mathlib.Core.Option.{some_inj}
use nimo_os_photos.Moments.Rows.{MemberKey, Members, EditOp, Store, is_alive}
use nimo_os_photos.Moments.Derived.{refresh_moment_derived}
use nimo_os_photos.Moments.Calls.{
  CallFaults, edit_members, record_edit, edit_one, edit_all, count_of, read_count, has_time_window,
  finish_edit, edit_result, apply_moment_edit_op, count_if,
}
use nimo_os_photos.Moments.Fresh.{fresh, refresh-fresh}

-- A statement that deletes no row.
delete_absent :
    {F : Type 0} (k : MemberKey) (ms : Members F) → is_some (lookup k ms) ≡ false → delete k ms ≡ ms
unfolding lookup delete
delete_absent k [] h = refl
delete_absent k ((j, v) ∷ ms) h = ground (arith, h, delete_absent k ms)

-- The moments stay, the count of changes does not fall, and where it stays the members do.
abbrev pub Counted : {F : Type 0} → ℕ × Store F → ℕ × Store F → Type 0
Counted x y = (y.1.moments ≡ x.1.moments) × (x.0 ≤ y.0) × (y.0 ≡ x.0 → y.1.members ≡ x.1.members)

module _ {F : Type 0} (f : CallFaults) (nil : F) (now : ℕ) (id : Text) where
  Counted-if :
      (b : Bool) (n : ℕ) (s : Store F) (same other : Members F)
      → Counted (n, s) (count_if (not b) n, record s { members = if b then s.members else other })
  Counted-if true n s same other = (refl, omega arith, λ h. refl)
  Counted-if false n s same other = (refl, omega arith, λ h. absurd (omega (arith, h)))

  edit_members-Counted :
      (op : EditOp) (aid : Text) (n : ℕ) (s : Store F)
      → Counted (n, s) (edit_members nil now op id aid (n, s))
  edit_members-Counted EditOp.pin aid n s = elim (Bool-cases (is_alive s.assets aid)) [
    | inl e ↦ rw e (Counted-if (is_some (lookup (id, aid) s.members)) n s s.members _)
    | inr e ↦ rw e (refl, omega arith, λ h. refl)
  ]
  edit_members-Counted EditOp.exclude aid n s =
      elim (Bool-cases (is_some (lookup (id, aid) s.members))) [
        | inl e ↦ rw e (refl, omega arith, λ h. absurd (omega (arith, h)))
        | inr e ↦ rw e (refl, omega arith, λ h. delete_absent (id, aid) s.members e)
      ]

  edit_one-Counted :
      (op : EditOp) (aid : Text) (x y : ℕ × Store F)
      → edit_one f nil now op id aid x ≡ some y
      → Counted x y
  unfolding edit_one
  edit_one-Counted op aid (n, s) y = elim (Bool-cases (f.asset aid)) [
    | inl e ↦ rw e (λ h. absurd (cc))
    | inr e ↦ rw e (elim (Bool-cases (is_some (lookup aid s.assets))) [
      | inr a ↦ rw a (λ h. subst (Counted (n, s)) (some_inj.0 h) (refl, omega arith, λ k. refl))
      | inl a ↦ rw a (elim (Bool-cases (is_some (lookup id s.moments))) [
        | inr b ↦ rw b (λ h. absurd (cc))
        | inl b ↦ rw b (λ h.
            subst (Counted (n, s)) (some_inj.0 h)
              (edit_members-Counted op aid n (record_edit now op id aid s)))
      ])
    ])
  ]

  edit_all-Counted :
      (op : EditOp) (aids : List Text) (x y : ℕ × Store F)
      → edit_all f nil now op id aids x ≡ some y
      → Counted x y
  unfolding edit_all
  edit_all-Counted op [] x y h = subst (Counted x) (some_inj.0 h) (refl, omega arith, λ k. refl)
  edit_all-Counted op (aid ∷ aids) x y h =
      let (z, a, b) =
        >>=-eq-some (edit_one f nil now op id aid x) (edit_all f nil now op id aids) h in
      let (m, l, k) = edit_one-Counted op aid x z a in
      let (m', l', k') = edit_all-Counted op aids z y b in
      (
        m' ∙ m,
        omega (arith, l, l'),
        λ e. k' (omega (arith, l, l', e)) ∙ k (omega (arith, l, l', e)),
      )

-- The store after an edit and the count that it returns.
abbrev pub Shows : {F : Type 0} → Text → ℕ × Store F → Type 0
Shows id (count, s) =
    (fresh id (lookup id s.moments) s.members ≡ true)
    × (count_of (lookup id s.moments) ≡ some count)

module _ (r : Float64) (f : CallFaults) (later : ℕ) (id : Text) where
  read_count-Shows :
      (s : Store r.F) (x : ℕ × Store r.F)
      → fresh id (lookup id s.moments) s.members ≡ true
      → read_count id s ≡ some x
      → Shows id x
  read_count-Shows s x h e =
      let (c, a, b) = >>=-eq-some (count_of (lookup id s.moments)) (λ c. some (c, s)) e in
      subst (Shows id) (some_inj.0 b) (h, a)

  finish_edit-Shows :
      (n : ℕ) (s : Store r.F) (x : ℕ × Store r.F)
      → (n ≡ 0 → fresh id (lookup id s.moments) s.members ≡ true)
      → finish_edit r f later id (n, s) ≡ some x
      → Shows id x
  finish_edit-Shows n s x h = elim (Bool-cases f.finish) [
    | inl e ↦ rw e (λ k. absurd (cc))
    | inr e ↦ rw e (elim (Bool-cases (n == 0)) [
      | inl z ↦ rw z (read_count-Shows s x (h ((==_iff n 0).0 z)))
      | inr z ↦ rw z (λ k.
          let (had, a, b) =
            >>=-eq-some (has_time_window (lookup id s.moments))
              (λ had. refresh_moment_derived r had later id s >>= λ s'. read_count id s') k in
          let (s', c, d) =
            >>=-eq-some (refresh_moment_derived r had later id s) (λ s'. read_count id s') b in
          read_count-Shows s' x (refresh-fresh r id had later s s' c) d)
    ])
  ]

  -- An edit that succeeds and returns a count: if the count of the moment was that of its members and its
  -- cover one of them, or none if it had no member, then it is so after the edit, and the number returned is
  -- the count.
  pub edit_keeps_fresh :
      (now count : ℕ) (op : EditOp) (aids : List Text) (s s' : Store r.F)
      → fresh id (lookup id s.moments) s.members ≡ true
      → apply_moment_edit_op r f now later op id aids s ≡ (s', some count)
      → Shows id (count, s')
  unfolding apply_moment_edit_op
  edit_keeps_fresh now count op aids s s' h = of_begin f.begin
    where
      of_result :
          (o : Option (ℕ × Store r.F))
          → ((x : ℕ × Store r.F) → o ≡ some x → Shows id x)
          → edit_result r s o ≡ (s', some count)
          → Shows id (count, s')
      of_result none k e = absurd (none_some (ap (λ (p : Store r.F × Option ℕ). p.1) e))
        where
          none_some : none ≡ some count → ⊥
          none_some e = cc
      of_result (some (c, z)) k e =
          let count_same : c ≡ count = some_inj.0 (ap (λ (p : Store r.F × Option ℕ). p.1) e) in
          subst (λ n. Shows id (n, s')) count_same
            (subst (λ y. Shows id (c, y)) (ap (λ (p : Store r.F × Option ℕ). p.0) e)
              (k (c, z) refl))

      of_all :
          (x : ℕ × Store r.F)
          → (edit_all f (r.lit 0 1) now op id aids (0, s) >>= finish_edit r f later id) ≡ some x
          → Shows id x
      of_all x e =
          let ((n, z), a, b) =
            >>=-eq-some (edit_all f (r.lit 0 1) now op id aids (0, s)) (finish_edit r f later id)
              e in
          let (m, l, k) = edit_all-Counted f (r.lit 0 1) now id op aids (0, s) (n, z) a in
          finish_edit-Shows n z x (λ q. rw (m, k q) h) b

      of_begin :
          (b : Bool)
          → edit_result r s (
              if b
              then none
              else (edit_all f (r.lit 0 1) now op id aids (0, s) >>= finish_edit r f later id))
            ≡ (s', some count)
          → Shows id (count, s')
      of_begin true = of_result none (λ x e. absurd (cc))
      of_begin false = of_result _ of_all
