-- ===== src/SmartViews/Changes.antt =====
-- What the loops of PinAssets, RemoveAssets and RestoreAssets do to each row, where no statement fails.
use nimo_os_photos.Prelude.{
  ℕ, suc, ◌≡◌, refl, ap, ◌∙◌, Bool, true, false, ◌&&◌, ◌||◌, not, Option, none, some, List, [], ◌∷◌,
  Text, text_Eq, text_eq, text_eq→≡, text_mem, pair_Eq, pair_eq, pair_eq_iff, lookup, insert,
  delete, lookup-insert, lookup-delete, any, ltb, Bool-cases, inl, inr, arith, if◌then◌else◌,
}
use nimo_os_photos.Assets.{Table}
use nimo_os_photos.SmartViews.Evaluate.{Origin, Match, Matches, MatchKey}
use nimo_os_photos.SmartViews.Rows.{quiet}
use nimo_os_photos.SmartViews.Manual.{
  asset_ok, pinned_match, upgraded, pin_found, pin_row, pin_one, pin_all, Removed, remove_found,
  remove_row, remove_one, remove_all, is_excluded, restore_all,
}

module _ {F : Type 0} where
  abbrev pinned_found : F → Match F → Origin → Match F
  pinned_found one m Origin.pinned = m
  pinned_found one m Origin.auto = upgraded one m
  pinned_found one m Origin.excluded = upgraded one m

  -- A row after it is pinned, after it is removed and after it is restored.
  abbrev pub pinned_row : ℕ → F → Option (Match F) → Option (Match F)
  pinned_row now one none = some (pinned_match now one)
  pinned_row now one (some m) = some (pinned_found one m m.origin)

  abbrev removed_found : Match F → Origin → Option (Match F)
  removed_found m Origin.pinned = none
  removed_found m Origin.auto = some (record m { origin = Origin.excluded })
  removed_found m Origin.excluded = some m

  abbrev pub removed_row : Option (Match F) → Option (Match F)
  removed_row none = none
  removed_row (some m) = removed_found m m.origin

  abbrev pub restored_row : Option (Match F) → Option (Match F)
  restored_row o = if is_excluded o then none else o

  abbrev pub is_pinned : Option (Match F) → Bool
  is_pinned none = false
  is_pinned (some m) = elim m.origin [ Origin.pinned ↦ true | _ ↦ false ]

  -- One row that changes as the function says.
  insert_as :
      (g : Option (Match F) → Option (Match F)) (k j : MatchKey) (x : Match F) (ms : Matches F)
      → g (lookup k ms) ≡ some x
      → lookup j (insert k x ms) ≡ (if pair_eq k j then g (lookup j ms) else lookup j ms)
  insert_as g k j x ms h = elim (Bool-cases (pair_eq k j)) [
    | inl e ↦ lookup-insert k j x ms ∙ rw (e, ← (pair_eq_iff k j).0 e, h) refl
    | inr e ↦ lookup-insert k j x ms ∙ rw e refl
  ]

  delete_as :
      (g : Option (Match F) → Option (Match F)) (k j : MatchKey) (ms : Matches F)
      → g (lookup k ms) ≡ none
      → lookup j (delete k ms) ≡ (if pair_eq k j then g (lookup j ms) else lookup j ms)
  delete_as g k j ms h = elim (Bool-cases (pair_eq k j)) [
    | inl e ↦ lookup-delete k j ms ∙ rw (e, ← (pair_eq_iff k j).0 e, h) refl
    | inr e ↦ lookup-delete k j ms ∙ rw e refl
  ]

  same_as :
      (g : Option (Match F) → Option (Match F)) (k j : MatchKey) (ms : Matches F)
      → g (lookup k ms) ≡ lookup k ms
      → lookup j ms ≡ (if pair_eq k j then g (lookup j ms) else lookup j ms)
  same_as g k j ms h = elim (Bool-cases (pair_eq k j)) [
    | inl e ↦ rw (e, ← (pair_eq_iff k j).0 e, h) refl
    | inr e ↦ rw e refl
  ]

  -- The change of a row by a loop over the ids, of which those that pass the test change it.
  unfoldable pub after_ids :
      (Text → Bool)
      → (Option (Match F) → Option (Match F))
      → Text
      → List Text
      → MatchKey
      → Option (Match F)
      → Option (Match F)
  after_ids ok g id [] k o = o
  after_ids ok g id (x ∷ ids) k o =
      after_ids ok g id ids k (if pair_eq (id, x) k && ok x then g o else o)

  pub after_ids_mem :
      (ok : Text → Bool) (g : Option (Match F) → Option (Match F)) (id w a : Text) (ids : List Text)
      (o : Option (Match F))
      → ((p : Option (Match F)) → g (g p) ≡ g p)
      → after_ids ok g id ids (w, a) o ≡ (if text_eq id w && text_mem a ids && ok a then g o else o)
  unfolding after_ids text_mem pair_eq
  after_ids_mem ok g id w a [] o i = ground arith
  after_ids_mem ok g id w a (x ∷ ids) o i =
      after_ids_mem ok g id w a ids _ i ∙ elim (Bool-cases (text_eq x a)) [
        | inl e ↦ rw (e, text_eq→≡ x a e) (ground (arith, i o))
        | inr e ↦ rw e (ground arith)
      ]

  pin_found-quiet :
      (now : ℕ) (one : F) (k : MatchKey) (m : Match F) (org : Origin) (n : ℕ) (ms : Matches F)
      → lookup k ms ≡ some m
      → m.origin ≡ org
      → (acc : ℕ × Matches F) × (pin_found false one k m org (n, ms) ≡ some acc)
        × ((j : MatchKey)
            → lookup j acc.1
              ≡ (if pair_eq k j then pinned_row now one (lookup j ms) else lookup j ms))
  pin_found-quiet now one k m Origin.pinned n ms h o =
      (_, refl, λ j. same_as (pinned_row now one) k j ms (rw h (rw o refl)))
  pin_found-quiet now one k m Origin.auto n ms h o =
      (_, refl, λ j. insert_as (pinned_row now one) k j _ ms (rw h (rw o refl)))
  pin_found-quiet now one k m Origin.excluded n ms h o =
      (_, refl, λ j. insert_as (pinned_row now one) k j _ ms (rw h (rw o refl)))

  pin_row-quiet :
      (now : ℕ) (one : F) (k : MatchKey) (o : Option (Match F)) (n : ℕ) (ms : Matches F)
      → lookup k ms ≡ o
      → (acc : ℕ × Matches F) × (pin_row false now one k o (n, ms) ≡ some acc)
        × ((j : MatchKey)
            → lookup j acc.1
              ≡ (if pair_eq k j then pinned_row now one (lookup j ms) else lookup j ms))
  pin_row-quiet now one k none n ms h =
      (_, refl, λ j. insert_as (pinned_row now one) k j _ ms (rw h refl))
  pin_row-quiet now one k (some m) n ms h = pin_found-quiet now one k m m.origin n ms h refl

  pin_one-quiet :
      (now : ℕ) (one : F) (id : Text) (assets : Table) (x : Text) (n : ℕ) (ms : Matches F)
      → (acc : ℕ × Matches F) × (pin_one quiet now one id assets x (n, ms) ≡ some acc)
        × ((j : MatchKey)
            → lookup j acc.1 ≡ (
                if pair_eq (id, x) j && asset_ok x assets
                then pinned_row now one (lookup j ms)
                else lookup j ms))
  unfolding pin_one
  pin_one-quiet now one id assets x n ms = elim (Bool-cases (asset_ok x assets)) [
    | inl e ↦
        let (acc, h, rows) = pin_row-quiet now one (id, x) (lookup (id, x) ms) n ms refl in
        (acc, rw e h, λ j. rows j ∙ rw e (ground arith))
    | inr e ↦ ((n, ms), rw e refl, λ j. rw e (ground arith))
  ]

  -- PinAssets pins each asset of the list that exists.
  pub pin_all-quiet :
      (now : ℕ) (one : F) (id : Text) (assets : Table) (ids : List Text) (n : ℕ) (ms : Matches F)
      → (acc : ℕ × Matches F) × (pin_all quiet now one id assets ids (n, ms) ≡ some acc)
        × ((j : MatchKey)
            → lookup j acc.1
              ≡ after_ids (λ x. asset_ok x assets) (pinned_row now one) id ids j (lookup j ms))
  unfolding pin_all after_ids
  pin_all-quiet now one id assets [] n ms = ((n, ms), refl, λ j. refl)
  pin_all-quiet now one id assets (x ∷ ids) n ms =
      let ((n1, ms1), h1, rows1) = pin_one-quiet now one id assets x n ms in
      let (acc, h, rows) = pin_all-quiet now one id assets ids n1 ms1 in
      (
        acc,
        rw h1 h,
        λ j.
            rows j
            ∙ ap (after_ids (λ y. asset_ok y assets) (pinned_row now one) id ids j) (rows1 j),
      )

  -- The counter of unpinned rows grows exactly at a pinned row.
  remove_found-quiet :
      (k : MatchKey) (m : Match F) (org : Origin) (u x : ℕ) (ms : Matches F)
      → lookup k ms ≡ some m
      → m.origin ≡ org
      → (acc : Removed F) × (remove_found false k m org (u, x, ms) ≡ some acc)
        × (ltb 0 acc.0 ≡ (ltb 0 u || is_pinned (lookup k ms)))
        × ((j : MatchKey)
            → lookup j acc.2 ≡ (if pair_eq k j then removed_row (lookup j ms) else lookup j ms))
  remove_found-quiet k m Origin.pinned u x ms h o =
      (_, refl, rw h (rw o (ground arith)), λ j. delete_as removed_row k j ms (rw h (rw o refl)))
  remove_found-quiet k m Origin.auto u x ms h o =
      (_, refl, rw h (rw o (ground arith)), λ j. insert_as removed_row k j _ ms (rw h (rw o refl)))
  remove_found-quiet k m Origin.excluded u x ms h o =
      (_, refl, rw h (rw o (ground arith)), λ j. same_as removed_row k j ms (rw h (rw o refl)))

  remove_row-quiet :
      (k : MatchKey) (o : Option (Match F)) (u x : ℕ) (ms : Matches F)
      → lookup k ms ≡ o
      → (acc : Removed F) × (remove_row false k o (u, x, ms) ≡ some acc)
        × (ltb 0 acc.0 ≡ (ltb 0 u || is_pinned (lookup k ms)))
        × ((j : MatchKey)
            → lookup j acc.2 ≡ (if pair_eq k j then removed_row (lookup j ms) else lookup j ms))
  remove_row-quiet k none u x ms h =
      (_, refl, rw h (ground arith), λ j. same_as removed_row k j ms (rw h refl))
  remove_row-quiet k (some m) u x ms h = remove_found-quiet k m m.origin u x ms h refl

  is_pinned-removed_found :
      (m : Match F) (org : Origin) → m.origin ≡ org → is_pinned (removed_found m org) ≡ false
  is_pinned-removed_found m Origin.pinned h = refl
  is_pinned-removed_found m Origin.auto h = refl
  is_pinned-removed_found m Origin.excluded h = rw h refl

  -- A row is pinned after a removal where it was and is another one.
  is_pinned-if :
      (b : Bool) (o : Option (Match F))
      → is_pinned (if b then removed_row o else o) ≡ (not b && is_pinned o)
  is_pinned-if true none = refl
  is_pinned-if true (some m) = is_pinned-removed_found m m.origin refl
  is_pinned-if false o = refl

  same_pinned :
      (k j : MatchKey) (ms : Matches F)
      → pair_eq k j ≡ true
      → is_pinned (lookup k ms) ≡ is_pinned (lookup j ms)
  same_pinned k j ms h = ap (λ i. is_pinned (lookup i ms)) ((pair_eq_iff k j).0 h)

  any-removed :
      (id x : Text) (ids : List Text) (ms ms1 : Matches F)
      → ((j : MatchKey)
          → lookup j ms1 ≡ (if pair_eq (id, x) j then removed_row (lookup j ms) else lookup j ms))
      → (is_pinned (lookup (id, x) ms) || any (λ a. is_pinned (lookup (id, a) ms1)) ids)
        ≡ (is_pinned (lookup (id, x) ms) || any (λ a. is_pinned (lookup (id, a) ms)) ids)
  any-removed id x [] ms ms1 rows = refl
  any-removed id x (a ∷ ids) ms ms1 rows = ground (
    arith,
    ap is_pinned (rows (id, a)),
    is_pinned-if (pair_eq (id, x) (id, a)) (lookup (id, a) ms),
    same_pinned (id, x) (id, a) ms,
    any-removed id x ids ms ms1 rows,
  )

  -- RemoveAssets removes each asset of the list.
  pub remove_all-quiet :
      (id : Text) (ids : List Text) (u x : ℕ) (ms : Matches F)
      → (acc : Removed F) × (remove_all quiet id ids (u, x, ms) ≡ some acc)
        × (ltb 0 acc.0 ≡ (ltb 0 u || any (λ a. is_pinned (lookup (id, a) ms)) ids))
        × ((j : MatchKey)
            → lookup j acc.2 ≡ after_ids (λ y. true) removed_row id ids j (lookup j ms))
  unfolding remove_all remove_one after_ids
  remove_all-quiet id [] u x ms = ((u, x, ms), refl, ground arith, λ j. refl)
  remove_all-quiet id (a ∷ ids) u x ms =
      let ((u1, x1, ms1), h1, c1, rows1) =
        remove_row-quiet (id, a) (lookup (id, a) ms) u x ms refl in
      let (acc, h, c, rows) = remove_all-quiet id ids u1 x1 ms1 in
      (
        acc,
        rw h1 h,
        c ∙ rw c1 (ground (arith, any-removed id a ids ms ms1 rows1)),
        λ j. rows j ∙ ap (after_ids (λ y. true) removed_row id ids j) (rows1 j ∙ ground arith),
      )

  restore_one-quiet :
      (k j : MatchKey) (ms : Matches F)
      → lookup j (if is_excluded (lookup k ms) then delete k ms else ms)
        ≡ (if pair_eq k j then restored_row (lookup j ms) else lookup j ms)
  restore_one-quiet k j ms = elim (Bool-cases (is_excluded (lookup k ms))) [
    | inl e ↦ rw e (delete_as restored_row k j ms (rw e refl))
    | inr e ↦ rw e (same_as restored_row k j ms (rw e refl))
  ]

  is_excluded-if :
      (b : Bool) (o : Option (Match F))
      → is_excluded (if b then restored_row o else o) ≡ (not b && is_excluded o)
  is_excluded-if false o = refl
  is_excluded-if true o = elim (Bool-cases (is_excluded o)) [ inl e ↦ rw e refl | inr e ↦ rw e e ]

  same_excluded :
      (k j : MatchKey) (ms : Matches F)
      → pair_eq k j ≡ true
      → is_excluded (lookup k ms) ≡ is_excluded (lookup j ms)
  same_excluded k j ms h = ap (λ i. is_excluded (lookup i ms)) ((pair_eq_iff k j).0 h)

  any-restored :
      (id x : Text) (ids : List Text) (ms ms1 : Matches F)
      → ((j : MatchKey)
          → lookup j ms1 ≡ (if pair_eq (id, x) j then restored_row (lookup j ms) else lookup j ms))
      → (is_excluded (lookup (id, x) ms) || any (λ a. is_excluded (lookup (id, a) ms1)) ids)
        ≡ (is_excluded (lookup (id, x) ms) || any (λ a. is_excluded (lookup (id, a) ms)) ids)
  any-restored id x [] ms ms1 rows = refl
  any-restored id x (a ∷ ids) ms ms1 rows = ground (
    arith,
    ap is_excluded (rows (id, a)),
    is_excluded-if (pair_eq (id, x) (id, a)) (lookup (id, a) ms),
    same_excluded (id, x) (id, a) ms,
    any-restored id x ids ms ms1 rows,
  )

  -- RestoreAssets deletes the excluded row of each asset of the list.
  pub restore_all-quiet :
      (id : Text) (ids : List Text) (n : ℕ) (ms : Matches F)
      → let (restored, ms', ok) = restore_all quiet id ids n ms in
        (ok ≡ true)
        × (ltb 0 restored ≡ (ltb 0 n || any (λ a. is_excluded (lookup (id, a) ms)) ids))
        × ((j : MatchKey)
            → lookup j ms' ≡ after_ids (λ y. true) restored_row id ids j (lookup j ms))
  unfolding restore_all after_ids
  restore_all-quiet id [] n ms = (refl, ground arith, λ j. refl)
  restore_all-quiet id (a ∷ ids) n ms =
      let hit : Bool = is_excluded (lookup (id, a) ms) in
      let n1 : ℕ = if hit then suc n else n in
      let ms1 : Matches F = if hit then delete (id, a) ms else ms in
      let (ok, c, rows) = restore_all-quiet id ids n1 ms1 in
      (
        ok,
        c ∙ ground (arith, any-restored id a ids ms ms1 (λ j. restore_one-quiet (id, a) j ms)),
        λ j.
            rows j
            ∙ ap (after_ids (λ y. true) restored_row id ids j)
                (restore_one-quiet (id, a) j ms ∙ ground arith),
      )
