-- ===== src/Moments/Fresh.antt =====
-- The count and the cover of a moment after the user's edits of its members.
use nimo_os_photos.Prelude.{
  ℕ, ◌≡◌, refl, ap, subst, ◌∙◌, Bool, true, false, ◌&&◌, ◌||◌, not, Option, none, some, List, [],
  ◌∷◌, Text, text_Eq, pair_Eq, pair_eq_iff, text_eq, text_eq_iff, text_eq_refl, keep, length,
  lookup, All, lookup-alter, is_some, ◌==◌, ==_iff, Float64, arith, inl, inr, Bool-cases,
  if◌then◌else◌,
}
use mathlib.Core.Option as Option
use mathlib.Core.Option.{some_inj}
use nimo_os_photos.Moments.Rows.{Moment, Member, MemberKey, Members, Store}
use nimo_os_photos.Moments.Derived.{
  members_of, before, first_of, pick, pick_featured, is_cover_member, new_cover, derived,
  refresh_moment_derived,
}

abbrev pub null {ℓ} : {A : Type ℓ} → List A → Bool
null [] = true
null (x ∷ xs) = false

-- The count is that of the members, and the cover is one of them, or none if there are none.
abbrev pub fresh : {F : Type 0} → Text → Option Moment → Members F → Bool
fresh id none ms = true
fresh id (some m) ms =
    (m.asset_count == length (members_of id ms))
    && (is_cover_member id m.cover_asset_id ms
        || (not (is_some m.cover_asset_id) && null (members_of id ms)))

lookup_each :
    {F : Type 0} (ms zs : Members F)
    → ((k : MemberKey) → is_some (lookup k ms) ≡ true → is_some (lookup k zs) ≡ true)
    → All (λ (y : MemberKey × Member F). is_some (lookup y.0 zs) ≡ true) ms
unfolding lookup
lookup_each [] zs h = tt
lookup_each ((k, v) ∷ ms) zs h =
    (h k (rw ((pair_eq_iff k k).1 refl) refl), lookup_each ms zs (λ j e. h j (ground (arith, e))))

All-keep {ℓ κ} :
    {A : Type ℓ} (P : A → Type κ) (p : A → Bool) (xs : List A) → All P xs → All P (keep p xs)
All-keep P p [] h = tt
All-keep P p (x ∷ xs) h = elim (Bool-cases (p x)) [
  | inl e ↦ rw e (h.0, All-keep P p xs h.1)
  | inr e ↦ rw e (All-keep P p xs h.1)
]

All-kept :
    {F : Type 0} (id : Text) (ms : Members F)
    → All (λ (y : MemberKey × Member F). text_eq y.0.0 id ≡ true) (members_of id ms)
All-kept id [] = tt
All-kept id (x ∷ ms) = elim (Bool-cases (text_eq x.0.0 id)) [
  | inl e ↦ rw e (e, All-kept id ms)
  | inr e ↦ rw e (All-kept id ms)
]

module _ (r : Float64) (id : Text) where
  first_of-All {κ} :
      (P : MemberKey × Member r.F → Type κ) (x : MemberKey × Member r.F) (xs : Members r.F)
      → P x
      → All P xs
      → P (first_of r x xs)
  first_of-All P x [] h k = h
  first_of-All P x (y ∷ ys) h k =
      first_of-All P (if before r y x then y else x) ys (either (before r y x)) k.1
    where
      either : (b : Bool) → P (if b then y else x)
      either true = k.0
      either false = h

  -- An entry of the moment that is found.
  abbrev Found : Members r.F → MemberKey × Member r.F → Type 0
  Found ms y = (text_eq y.0.0 id ≡ true) × (is_some (lookup y.0 ms) ≡ true)

  Found-cover :
      (ms : Members r.F) (y : MemberKey × Member r.F)
      → Found ms y
      → is_cover_member id (some y.0.1) ms ≡ true
  Found-cover ms ((i, a), m) (h, k) =
      subst (λ x. is_some (lookup (x, a) ms) ≡ true) ((text_eq_iff i id).0 h) k

  pick-cover :
      (ms xs : Members r.F)
      → All (Found ms) xs
      → (is_cover_member id (pick r xs) ms || (not (is_some (pick r xs)) && null xs)) ≡ true
  pick-cover ms [] h = refl
  pick-cover ms (x ∷ xs) h =
      rw (Found-cover ms (first_of r x xs) (first_of-All (Found ms) x xs h.0 h.1)) refl

  pick_featured-cover :
      (ms fs xs : Members r.F)
      → All (Found ms) fs
      → All (Found ms) xs
      → (is_cover_member id (pick_featured r fs xs) ms
          || (not (is_some (pick_featured r fs xs)) && null xs))
        ≡ true
  pick_featured-cover ms [] xs h k = pick-cover ms xs k
  pick_featured-cover ms (f ∷ fs) xs h k =
      rw (Found-cover ms (first_of r f fs) (first_of-All (Found ms) f fs h.0 h.1)) refl

  All-both {κ μ} :
      (P : MemberKey × Member r.F → Type κ) (Q : MemberKey × Member r.F → Type μ) (xs : Members r.F)
      → All P xs
      → All Q xs
      → All (λ y. P y × Q y) xs
  All-both P Q [] h k = tt
  All-both P Q (x ∷ xs) h k = ((h.0, k.0), All-both P Q xs h.1 k.1)

  All-Found : (ms : Members r.F) → All (Found ms) (members_of id ms)
  All-Found ms =
      All-both (λ y. text_eq y.0.0 id ≡ true) (λ y. is_some (lookup y.0 ms) ≡ true)
        (members_of id ms) (All-kept id ms)
        (All-keep (λ (y : MemberKey × Member r.F). is_some (lookup y.0 ms) ≡ true)
          (λ x. text_eq x.0.0 id) ms (lookup_each ms ms (λ k e. e)))

  new_cover-ok :
      (cover : Option Text) (ms : Members r.F)
      → (is_cover_member id (new_cover r id cover ms) ms
          || (not (is_some (new_cover r id cover ms)) && null (members_of id ms)))
        ≡ true
  new_cover-ok cover ms = elim (Bool-cases (is_cover_member id cover ms)) [
    | inl e ↦ rw (e, e) refl
    | inr e ↦ rw e (
        pick_featured-cover ms (keep (λ x. x.1.featured) (members_of id ms)) (members_of id ms)
          (All-keep (Found ms) (λ x. x.1.featured) (members_of id ms) (All-Found ms))
          (All-Found ms))
  ]

  derived-fresh :
      (b : Bool) (now : ℕ) (s : Store r.F) (o : Option Moment)
      → fresh id (Option.map (derived r b now id s.assets s.members) o) s.members ≡ true
  derived-fresh b now s none = refl
  derived-fresh b now s (some m) = ground (
    arith,
    ==_iff (length (members_of id s.members)) (length (members_of id s.members)),
    new_cover-ok m.cover_asset_id s.members,
  )

  pub refresh-fresh :
      (b : Bool) (now : ℕ) (s s' : Store r.F)
      → refresh_moment_derived r b now id s ≡ some s'
      → fresh id (lookup id s'.moments) s'.members ≡ true
  unfolding refresh_moment_derived
  refresh-fresh b now s s' = elim (Bool-cases (is_some (lookup id s.moments))) [
    | inl e ↦ rw e (λ h.
        subst (λ x. fresh id (lookup id x.moments) x.members ≡ true) (some_inj.0 h)
          (ap (λ o. fresh id o s.members)
              (lookup-alter id id (derived r b now id s.assets s.members) s.moments)
            ∙ rw (text_eq_refl id) (derived-fresh b now s (lookup id s.moments))))
    | inr e ↦ rw e (λ h. absurd (cc))
  ]
