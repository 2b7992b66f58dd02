-- ===== src/SmartViews/Rows.antt =====
-- What Evaluate does to the table of matches, and when it succeeds.
use nimo_os_photos.Prelude.{
  ℕ, ◌≡◌, refl, ap, sym, ◌∙◌, Bool, true, false, ◌||◌, Option, none, some, List, [], ◌∷◌, Text,
  text_Eq, text_eq, pair_Eq, lookup, delete, Float64, Bool-cases, inl, inr, ◌⊎◌, arith,
  if◌then◌else◌,
}
use nimo_os_photos.SmartViews.Evaluate.{
  Origin, MatchKey, upsert, Matches, View, Store, Result, done, not_found, db_error, Faults, Env,
  upsert_all, delete_gone, reconcile, existing_of, commit_evaluate, evaluate_scored, evaluate_view,
  evaluate, selected, parsed_now, update_view, delete_one, is_gone,
}
use nimo_os_photos.SmartViews.Reconcile.{reconciled, lookup-reconcile}

-- No statement fails.
abbrev pub quiet : Faults
quiet = record {
  view = false;
  parsed = false;
  existing = false;
  begin = false;
  commit = false;
  log = false;
  touch = false;
  asset = λ aid. false;
  select = λ aid. false;
  write = λ aid. false;
}

module _ {F : Type 0} where
  -- The matches and the activity, with which a failed call must leave the store.
  abbrev pub Untouched : Store F → Store F → Type 0
  Untouched s s' = (s'.matches ≡ s.matches) × (s'.activity ≡ s.activity) × (s'.assets ≡ s.assets)

  if-done :
      (b : Bool) (x : Store F × Result Unit) (s : Store F)
      → (if b then (s, db_error) else x).1 ≡ done tt
      → (if b then (s, db_error) else x) ≡ x
  if-done true x s h = cc
  if-done false x s h = refl

  commit-rows :
      (f : Faults) (now : ℕ) (id w aid : Text) (scores : List (Text × F)) (o : Option (Matches F))
      (s : Store F)
      → reconcile f.write now id scores s.matches ≡ o
      → (commit_evaluate f now id scores o s).1 ≡ done tt
      → lookup (w, aid) (commit_evaluate f now id scores o s).0.matches ≡ (
          if text_eq id w
          then reconciled now (lookup aid scores) (lookup (w, aid) s.matches)
          else lookup (w, aid) s.matches)
  unfolding commit_evaluate
  commit-rows f now id w aid scores none s e h = cc
  commit-rows f now id w aid scores (some ms) s e h =
      ground (arith, lookup-reconcile f.write now id w aid scores s.matches ms e)

  commit-Untouched :
      (f : Faults) (now : ℕ) (id : Text) (scores : List (Text × F)) (o : Option (Matches F))
      (s : Store F)
      → let (s', result) = commit_evaluate f now id scores o s in
        (result ≡ done tt) ⊎ ((result ≡ db_error) × Untouched s s')
  unfolding commit_evaluate
  commit-Untouched f now id scores none s = inr (refl, (refl, refl, refl))
  commit-Untouched f now id scores (some ms) s = elim (Bool-cases f.commit) [
    | inl e ↦ inr (rw e (refl, (refl, refl, refl)))
    | inr e ↦ inl (rw e refl)
  ]

  upsert_all-quiet :
      (now : ℕ) (id : Text) (existing : List (Text × Origin)) (scores : List (Text × F))
      (ms : Matches F)
      → (ms' : Matches F) × (upsert_all quiet.write now id existing scores ms ≡ some ms')
  unfolding upsert_all
  upsert_all-quiet now id existing [] ms = (ms, refl)
  upsert_all-quiet now id existing ((aid, score) ∷ scores) ms =
      let (ms', e) = upsert_all-quiet now id existing scores ms in
      (upsert now (id, aid) score (lookup aid existing) ms', rw e refl)

  delete_one-quiet :
      (k : MatchKey) (gone : Bool) (ms : Matches F)
      → delete_one quiet.write k gone ms ≡ some (if gone then delete k ms else ms)
  delete_one-quiet k true ms = refl
  delete_one-quiet k false ms = refl

  delete_gone-quiet :
      (id : Text) (scores : List (Text × F)) (existing : List (Text × Origin)) (ms : Matches F)
      → (ms' : Matches F) × (delete_gone quiet.write id scores existing ms ≡ some ms')
  unfolding delete_gone
  delete_gone-quiet id scores [] ms = (ms, refl)
  delete_gone-quiet id scores ((aid, org) ∷ existing) ms =
      let (ms', e) = delete_gone-quiet id scores existing ms in
      (
        if is_gone scores aid org then delete (id, aid) ms' else ms',
        rw e (delete_one-quiet (id, aid) (is_gone scores aid org) ms'),
      )

  reconcile-quiet :
      (now : ℕ) (id : Text) (scores : List (Text × F)) (ms : Matches F)
      → (ms' : Matches F) × (reconcile quiet.write now id scores ms ≡ some ms')
  unfolding reconcile
  reconcile-quiet now id scores ms =
      let existing : List (Text × Origin) = existing_of id ms in
      let (ms1, e) = upsert_all-quiet now id existing scores ms in
      let (ms2, d) = delete_gone-quiet id scores existing ms1 in (ms2, rw e d)

module _ (r : Float64) where
  -- The store after the refresh of conds_parsed.
  with_parsed : Env r.F → Faults → Text → View → Store r.F → Store r.F
  with_parsed e f id v s = record s {
    views =
        update_view f.parsed id (λ w. record w { conds_parsed = parsed_now r e v }) (some v)
          s.views;
  }

  -- Where Evaluate succeeds: in its own view, exactly the assets that the conditions select and the
  -- assets that the user has pinned or excluded have a row; a row of the recompute has the score that
  -- its asset has now, a new one has the time of the call, a row of the user is as it was, and so is
  -- each row of another view.
  pub evaluate_rows :
      (e : Env r.F) (f : Faults) (now : ℕ) (id w aid : Text) (v : View) (scores : List (Text × r.F))
      (s : Store r.F)
      → lookup id s.views ≡ some v
      → selected r e v ≡ some scores
      → (evaluate r e f now id s).1 ≡ done tt
      → lookup (w, aid) (evaluate r e f now id s).0.matches ≡ (
          if text_eq id w
          then reconciled now (lookup aid scores) (lookup (w, aid) s.matches)
          else lookup (w, aid) s.matches)
  unfolding evaluate evaluate_view evaluate_scored with_parsed
  evaluate_rows e f now id w aid v scores s hv hs h =
      let s1 : Store r.F = with_parsed e f id v s in
      let x1 : evaluate r e f now id s ≡ evaluate_view r e f now id (lookup id s.views) s =
        if-done f.view _ s h in
      let x2 : evaluate r e f now id s ≡ evaluate_scored f now id (some scores) s1 =
        x1 ∙ rw (hv, hs) refl in
      let x3 : evaluate r e f now id s
          ≡ commit_evaluate f now id scores (reconcile f.write now id scores s.matches) s1 =
        x2 ∙ if-done (f.existing || f.begin) _ s1 (sym (ap (λ x. x.1) x2) ∙ h) in
      ap (λ x. lookup (w, aid) x.0.matches) x3
      ∙ commit-rows f now id w aid scores _ s1 refl (sym (ap (λ x. x.1) x3) ∙ h)

  atomic_scored :
      (f : Faults) (now : ℕ) (id : Text) (o : Option (List (Text × r.F))) (s : Store r.F)
      → let (s', result) = evaluate_scored f now id o s in
        (result ≡ done tt) ⊎ ((result ≡ db_error) × Untouched s s')
  unfolding evaluate_scored
  atomic_scored f now id none s = inr (refl, (refl, refl, refl))
  atomic_scored f now id (some scores) s = elim (Bool-cases (f.existing || f.begin)) [
    | inl e ↦ inr (rw e (refl, (refl, refl, refl)))
    | inr e ↦ rw e (commit-Untouched f now id scores _ s)
  ]

  atomic_view :
      (e : Env r.F) (f : Faults) (now : ℕ) (id : Text) (o : Option View) (s : Store r.F)
      → let (s', result) = evaluate_view r e f now id o s in
        (result ≡ done tt) ⊎ (((result ≡ db_error) ⊎ (result ≡ not_found)) × Untouched s s')
  unfolding evaluate_view
  atomic_view e f now id none s = inr (inr refl, (refl, refl, refl))
  atomic_view e f now id (some v) s = elim (atomic_scored f now id (selected r e v) _) [
    | inl h ↦ inl h
    | inr h ↦ inr (inl h.0, h.1)
  ]

  -- Evaluate succeeds, or it reports the error and has left the matches, the activity and the assets
  -- as they were.
  evaluate_atomic :
      (e : Env r.F) (f : Faults) (now : ℕ) (id : Text) (s : Store r.F)
      → let (s', result) = evaluate r e f now id s in
        (result ≡ done tt) ⊎ (((result ≡ db_error) ⊎ (result ≡ not_found)) × Untouched s s')
  unfolding evaluate evaluate_view evaluate_scored commit_evaluate
  evaluate_atomic e f now id s = elim (Bool-cases f.view) [
    | inl fv ↦ inr (rw fv (inl refl, (refl, refl, refl)))
    | inr fv ↦ rw fv (atomic_view e f now id (lookup id s.views) s)
  ]

  -- If no statement fails, Evaluate of a view whose queries answer succeeds.
  pub evaluate-quiet :
      (e : Env r.F) (now : ℕ) (id : Text) (v : View) (scores : List (Text × r.F)) (s : Store r.F)
      → lookup id s.views ≡ some v
      → selected r e v ≡ some scores
      → (evaluate r e quiet now id s).1 ≡ done tt
  unfolding evaluate evaluate_view evaluate_scored commit_evaluate
  evaluate-quiet e now id v scores s hv hs =
      let (ms, q) = reconcile-quiet now id scores s.matches in rw (hv, hs, q) refl
