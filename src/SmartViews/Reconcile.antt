-- ===== src/SmartViews/Reconcile.antt =====
-- What Evaluate makes of each row of smart_view_matches.
use nimo_os_photos.Prelude.{
  ℕ, ◌≡◌, refl, ap, sym, ◌∙◌, Bool, true, false, ◌&&◌, Option, none, some, List, [], ◌∷◌, Text,
  text_Eq, text_eq, text_eq_iff, text_eq→≡, pair_Eq, pair_eq, pair_eq_iff, lookup, delete,
  lookup-insert, lookup-delete, unique, unique-insert, >>=-eq-some, Bool-cases, inl, inr, arith,
  if◌then◌else◌,
}
use mathlib.Core.Option as Option
use nimo_os_photos.SmartViews.Evaluate.{
  Origin, Match, Matches, MatchKey, existing_of, upsert, upsert_one, upsert_all, set_score, is_gone,
  delete_one, delete_gone, reconcile,
}

module _ {F : Type 0} where
  abbrev with_score : F → Match F → Match F
  with_score score m = record m { match_score = score }

  -- What the upserts make of a row, by its origin before them and the score selected for its asset.
  abbrev upserted : ℕ → Option F → Option Origin → Option (Match F) → Option (Match F)
  upserted now none org m = m
  upserted now (some score) none m =
      some (record { match_score = score; matched_at = now; origin = Origin.auto })
  upserted now (some score) (some Origin.auto) m = Option.map (with_score score) m
  upserted now (some score) (some Origin.pinned) m = m
  upserted now (some score) (some Origin.excluded) m = m

  -- What Evaluate makes of a row of its view, by the score selected for its asset.
  abbrev pub reconciled_row : ℕ → Option F → Match F → Origin → Option (Match F)
  reconciled_row now none m Origin.auto = none
  reconciled_row now (some score) m Origin.auto = some (with_score score m)
  reconciled_row now sel m Origin.pinned = some m
  reconciled_row now sel m Origin.excluded = some m

  abbrev pub reconciled : ℕ → Option F → Option (Match F) → Option (Match F)
  reconciled now none none = none
  reconciled now (some score) none =
      some (record { match_score = score; matched_at = now; origin = Origin.auto })
  reconciled now sel (some m) = reconciled_row now sel m m.origin

  abbrev origin_of : Option (Match F) → Option Origin
  origin_of none = none
  origin_of (some m) = some m.origin

  lookup-existing_of :
      (id aid : Text) (ms : Matches F)
      → lookup aid (existing_of id ms) ≡ origin_of (lookup (id, aid) ms)
  unfolding existing_of lookup pair_eq
  lookup-existing_of id aid [] = refl
  lookup-existing_of id aid (((view, a), m) ∷ ms) =
      ground (arith, lookup-insert a aid m.origin (existing_of id ms), lookup-existing_of id aid ms)

  unique-existing_of : (id : Text) (ms : Matches F) → unique (existing_of id ms) ≡ true
  unfolding existing_of unique
  unique-existing_of id [] = refl
  unique-existing_of id (((view, aid), m) ∷ ms) =
      ground (arith, unique-existing_of id ms, unique-insert aid m.origin (existing_of id ms))

  lookup-set_score :
      (k j : MatchKey) (score : F) (o : Option (Match F)) (ms : Matches F)
      → lookup k ms ≡ o
      → lookup j (set_score k score o ms)
        ≡ (if pair_eq k j then Option.map (with_score score) (lookup j ms) else lookup j ms)
  lookup-set_score k j score none ms h = elim (Bool-cases (pair_eq k j)) [
    | inl e ↦ rw (e, ← (pair_eq_iff k j).0 e, h) refl
    | inr e ↦ rw e refl
  ]
  lookup-set_score k j score (some m) ms h = elim (Bool-cases (pair_eq k j)) [
    | inl e ↦ lookup-insert k j _ ms ∙ rw (e, ← (pair_eq_iff k j).0 e, h) refl
    | inr e ↦ lookup-insert k j _ ms ∙ rw e refl
  ]

  lookup-upsert :
      (now : ℕ) (k j : MatchKey) (score : F) (org : Option Origin) (ms : Matches F)
      → lookup j (upsert now k score org ms)
        ≡ (if pair_eq k j then upserted now (some score) org (lookup j ms) else lookup j ms)
  lookup-upsert now k j score none ms = lookup-insert k j _ ms
  lookup-upsert now k j score (some Origin.auto) ms =
      lookup-set_score k j score (lookup k ms) ms refl
  lookup-upsert now k j score (some Origin.pinned) ms = ground arith
  lookup-upsert now k j score (some Origin.excluded) ms = ground arith

  upserted_again :
      (now : ℕ) (score : F) (sel : Option F) (org : Option Origin) (m : Option (Match F))
      → upserted now (some score) org (upserted now sel org m) ≡ upserted now (some score) org m
  upserted_again now score none org m = refl
  upserted_again now score (some s) none m = refl
  upserted_again now score (some s) (some Origin.auto) none = refl
  upserted_again now score (some s) (some Origin.auto) (some m) = refl
  upserted_again now score (some s) (some Origin.pinned) m = refl
  upserted_again now score (some s) (some Origin.excluded) m = refl

  upsert_one-some :
      (fault : Text → Bool) (now : ℕ) (k : MatchKey) (score : F) (org : Option Origin)
      (ms ms' : Matches F)
      → upsert_one fault now k score org ms ≡ some ms'
      → upsert now k score org ms ≡ ms'
  upsert_one-some fault now k score org ms ms' h = ground arith

  delete_one-some :
      (fault : Text → Bool) (k : MatchKey) (gone : Bool) (ms ms' : Matches F)
      → delete_one fault k gone ms ≡ some ms'
      → (if gone then delete k ms else ms) ≡ ms'
  delete_one-some fault k gone ms ms' h = ground arith

  upserted_next :
      (now : ℕ) (id w a aid : Text) (score : F) (existing : List (Text × Origin)) (sel : Option F)
      (m x : Option (Match F))
      → x ≡ (if text_eq id w then upserted now sel (lookup aid existing) m else m)
      → (if pair_eq (id, a) (w, aid) then upserted now (some score) (lookup a existing) x else x)
        ≡ (if text_eq id w
            then upserted now (if text_eq a aid then some score else sel) (lookup aid existing) m
            else m)
  unfolding pair_eq
  upserted_next now id w a aid score existing sel m x h = elim (Bool-cases (text_eq id w)) [
    | inl e ↦ elim (Bool-cases (text_eq a aid)) [
      | inl d ↦
          rw (h, e, d, text_eq→≡ a aid d) (upserted_again now score sel (lookup aid existing) m)
      | inr d ↦ rw (h, e, d) refl
    ]
    | inr e ↦ rw (h, e) refl
  ]

  lookup-delete_if :
      (gone : Bool) (k j : MatchKey) (ms : Matches F)
      → lookup j (if gone then delete k ms else ms)
        ≡ (if gone && pair_eq k j then none else lookup j ms)
  lookup-delete_if true k j ms = lookup-delete k j ms
  lookup-delete_if false k j ms = refl

  lookup-upsert_all :
      (fault : Text → Bool) (now : ℕ) (id w aid : Text) (existing : List (Text × Origin))
      (scores : List (Text × F)) (ms ms' : Matches F)
      → upsert_all fault now id existing scores ms ≡ some ms'
      → lookup (w, aid) ms' ≡ (
          if text_eq id w
          then upserted now (lookup aid scores) (lookup aid existing) (lookup (w, aid) ms)
          else lookup (w, aid) ms)
  unfolding upsert_all lookup
  lookup-upsert_all fault now id w aid existing [] ms ms' h = ground arith
  lookup-upsert_all fault now id w aid existing ((a, score) ∷ scores) ms ms' h =
      let (ms1, h1, h2) = >>=-eq-some (upsert_all fault now id existing scores ms) _ h in
      let ih = lookup-upsert_all fault now id w aid existing scores ms ms1 h1 in
      ap (lookup (w, aid))
        (sym (upsert_one-some fault now (id, a) score (lookup a existing) ms1 ms' h2))
      ∙ lookup-upsert now (id, a) (w, aid) score (lookup a existing) ms1
      ∙ upserted_next now id w a aid score existing (lookup aid scores) _ _ ih

  abbrev gone_at : List (Text × F) → Text → Option Origin → Bool
  gone_at scores aid none = false
  gone_at scores aid (some org) = is_gone scores aid org

  lookup-delete_gone :
      (fault : Text → Bool) (id w aid : Text) (scores : List (Text × F))
      (existing : List (Text × Origin)) (ms ms' : Matches F)
      → unique existing ≡ true
      → delete_gone fault id scores existing ms ≡ some ms'
      → lookup (w, aid) ms' ≡ (
          if text_eq id w && gone_at scores aid (lookup aid existing)
          then none
          else lookup (w, aid) ms)
  unfolding delete_gone lookup unique pair_eq
  lookup-delete_gone fault id w aid scores [] ms ms' u h = ground arith
  lookup-delete_gone fault id w aid scores ((a, org) ∷ existing) ms ms' u h =
      let (ms1, h1, h2) = >>=-eq-some (delete_gone fault id scores existing ms) _ h in
      let ih = lookup-delete_gone fault id w aid scores existing ms ms1 (ground arith) h1 in
      ap (lookup (w, aid)) (sym (delete_one-some fault (id, a) (is_gone scores a org) ms1 ms' h2))
      ∙ lookup-delete_if (is_gone scores a org) (id, a) (w, aid) ms1
      ∙ ground (arith, text_eq_iff a aid)

  row_step :
      (now : ℕ) (scores : List (Text × F)) (aid : Text) (m : Match F) (sel : Option F)
      (org : Origin)
      → lookup aid scores ≡ sel
      → (if is_gone scores aid org then none else upserted now sel (some org) (some m))
        ≡ reconciled_row now sel m org
  row_step now scores aid m none Origin.auto h = rw h
  row_step now scores aid m none Origin.pinned h = refl
  row_step now scores aid m none Origin.excluded h = refl
  row_step now scores aid m (some sc) Origin.auto h = rw h
  row_step now scores aid m (some sc) Origin.pinned h = refl
  row_step now scores aid m (some sc) Origin.excluded h = refl

  reconcile_step :
      (now : ℕ) (scores : List (Text × F)) (aid : Text) (m : Option (Match F)) (sel : Option F)
      → lookup aid scores ≡ sel
      → (if gone_at scores aid (origin_of m) then none else upserted now sel (origin_of m) m)
        ≡ reconciled now sel m
  reconcile_step now scores aid none none h = refl
  reconcile_step now scores aid none (some sc) h = refl
  reconcile_step now scores aid (some m) sel h = row_step now scores aid m sel m.origin h

  pub lookup-reconcile :
      (fault : Text → Bool) (now : ℕ) (id w aid : Text) (scores : List (Text × F))
      (ms ms' : Matches F)
      → reconcile fault now id scores ms ≡ some ms'
      → lookup (w, aid) ms' ≡ (
          if text_eq id w
          then reconciled now (lookup aid scores) (lookup (w, aid) ms)
          else lookup (w, aid) ms)
  unfolding reconcile
  lookup-reconcile fault now id w aid scores ms ms' h =
      let existing : List (Text × Origin) = existing_of id ms in
      let (ms1, h1, h2) = >>=-eq-some (upsert_all fault now id existing scores ms) _ h in
      lookup-delete_gone fault id w aid scores existing ms1 ms' (unique-existing_of id ms) h2
      ∙ elim (Bool-cases (text_eq id w)) [
        | inl e ↦
            rw
              (
                lookup-upsert_all fault now id w aid existing scores ms ms1 h1,
                e,
                lookup-existing_of id aid ms,
                text_eq→≡ id w e,
              )
              (reconcile_step now scores aid (lookup (w, aid) ms) (lookup aid scores) refl)
        | inr e ↦ rw (lookup-upsert_all fault now id w aid existing scores ms ms1 h1, e) refl
      ]
