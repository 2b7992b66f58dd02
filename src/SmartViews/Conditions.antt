-- ===== src/SmartViews/Conditions.antt =====
-- The loop of evalParsed over the conditions gathers what Selection asks of an asset.
use nimo_os_photos.Prelude.{
  ℕ, ◌≡◌, refl, ap, sym, ◌∙◌, Bool, true, false, ◌&&◌, ◌||◌, not, Option, none, some, List, [], ◌∷◌,
  ◌++◌, Text, text_Eq, text_eq, text_eq_iff, text_mem, lookup, insert, is_some, unique,
  unique-insert, lookup-insert, ◌>>=◌, >>=-eq-some, Float64, Bool-cases, inl, inr, arith,
  if◌then◌else◌, any,
}
use nimo_os_photos.SmartViews.Scores.{
  CondKind, ParsedCond, Queries, Found, in_all, intersect, keys, scores_or_empty, add_scores,
  add_set, add_semantic, semantic_map, assets_for_semantic, date_cond, eval_cond, eval_conds,
  score_of, reaches, threshold_score, candidates, result_of, nothing_found, eval_parsed,
}
use nimo_os_photos.SmartViews.Selection.{
  mem-intersect, videos_of, cond_ids, date_ids, keys_of, one_score, holds_in, all_hold, score_in,
  cond_scores, all_scores, mem-exclude_videos, lookup-above,
}

abbrev pub has_set : List (List Text) → Bool
has_set [] = false
has_set (s ∷ sets) = true

has_set-append : (sets : List (List Text)) (s : List Text) → has_set (sets ++ (s ∷ [])) ≡ true
has_set-append [] s = refl
has_set-append (t ∷ sets) s = refl

in_all-append :
    (a : Text) (sets : List (List Text)) (s : List Text)
    → in_all a (sets ++ (s ∷ [])) ≡ (in_all a sets && text_mem a s)
unfolding in_all
in_all-append a [] s = ground arith
in_all-append a (t ∷ sets) s = ground (arith, in_all-append a sets s)

append_nil {ℓ} : {A : Type ℓ} (xs : List A) → xs ++ [] ≡ xs
append_nil [] = refl
append_nil (x ∷ xs) = ap (◌∷◌ x) (append_nil xs)

append_assoc {ℓ} : {A : Type ℓ} (xs ys zs : List A) → xs ++ (ys ++ zs) ≡ (xs ++ ys) ++ zs
append_assoc [] ys zs = refl
append_assoc (x ∷ xs) ys zs = ap (◌∷◌ x) (append_assoc xs ys zs)

module _ {F : Type 0} where
  mem-keys :
      (a : Text) (scored : List (Text × F)) → text_mem a (keys scored) ≡ is_some (lookup a scored)
  unfolding text_mem lookup
  mem-keys a [] = refl
  mem-keys a ((x, sc) ∷ scored) = ground (arith, mem-keys a scored)

  abbrev scores_at : Text → List (Text × List F) → List F
  scores_at a scores = scores_or_empty (lookup a scores)

  scores_at-insert :
      (x a : Text) (sc : F) (scores : List (Text × List F))
      → scores_at a (insert x (scores_at x scores ++ (sc ∷ [])) scores)
        ≡ (if text_eq x a then scores_at a scores ++ (sc ∷ []) else scores_at a scores)
  scores_at-insert x a sc scores = elim (Bool-cases (text_eq x a)) [
    | inl e ↦ ap scores_or_empty (lookup-insert x a _ scores) ∙ rw (e, ← (text_eq_iff x a).0 e) refl
    | inr e ↦ ap scores_or_empty (lookup-insert x a _ scores) ∙ rw e refl
  ]

  absent : (o : Option F) → is_some o ≡ false → o ≡ none
  absent none h = refl
  absent (some sc) h = cc

  scores_at-add_scores :
      (a : Text) (scored : List (Text × F)) (scores : List (Text × List F))
      → unique scored ≡ true
      → scores_at a (add_scores scored scores) ≡ scores_at a scores ++ one_score (lookup a scored)
  unfolding add_scores unique lookup
  scores_at-add_scores a [] scores u = sym (append_nil (scores_at a scores))
  scores_at-add_scores a ((x, sc) ∷ scored) scores u =
      scores_at-add_scores a scored _ (ground arith)
      ∙ rw (scores_at-insert x a sc scores) (elim (Bool-cases (text_eq x a)) [
        | inl e ↦
            rw
              (
                e,
                absent (lookup a scored) (
                    ap (λ y. is_some (lookup y scored)) (sym ((text_eq_iff x a).0 e))
                    ∙ ground arith),
              )
              (append_nil (scores_at a scores ++ (sc ∷ [])))
        | inr e ↦ rw e refl
      ])

  -- What a round of the loop makes of the state, by the set and the scores of its condition.
  abbrev Grown : Text → Option (List Text) → List F → Found F → Found F → Type 0
  Grown a o vs found found' =
      (found'.has_executable ≡ (found.has_executable || is_some o))
      × (in_all a found'.sets ≡ (in_all a found.sets && holds_in a o))
      × (scores_at a found'.semantic_scores ≡ scores_at a found.semantic_scores ++ vs)
      × (found'.has_executable ≡ has_set found'.sets)

  ids_step :
      (a : Text) (o : Option (List Text)) (found found' : Found F)
      → (o >>= λ ids. some (add_set ids found)) ≡ some found'
      → Grown a o [] found found'
  ids_step a none found found' h = cc
  ids_step a (some ids) found found' h =
      let e : add_set ids found ≡ found' = cc in
      rw (← e) (
        ground arith,
        in_all-append a found.sets ids,
        sym (append_nil _),
        sym (has_set-append found.sets ids),
      )

  no_step :
      (a : Text) (found found' : Found F)
      → found.has_executable ≡ has_set found.sets
      → some found ≡ some found'
      → Grown a none [] found found'
  no_step a found found' k h =
      let e : found ≡ found' = cc in rw (← e) (ground arith, ground arith, sym (append_nil _), k)

  semantic_step :
      (a : Text) (o : Option (List (Text × F))) (found found' : Found F)
      → ((scored : List (Text × F)) → o ≡ some scored → unique scored ≡ true)
      → (o >>= λ scored. some (add_semantic scored found)) ≡ some found'
      → Grown a (keys_of o) (score_in a o) found found'
  semantic_step a none found found' u h = cc
  semantic_step a (some scored) found found' u h =
      let e : add_semantic scored found ≡ found' = cc in
      rw (← e) (
        ground arith,
        in_all-append a found.sets (keys scored),
        scores_at-add_scores a scored found.semantic_scores (u scored refl),
        sym (has_set-append found.sets (keys scored)),
      )

unique-results :
    (f : Float64) (results : List (Text × Option f.F)) (out : List (Text × f.F))
    → unique out ≡ true
    → unique (semantic_map f out results) ≡ true
unfolding semantic_map
unique-results f [] out u = u
unique-results f ((id, sc) ∷ results) out u = unique-results f results _ (unique-insert id _ out u)

module _ (f : Float64) where
  semantic_unique :
      (q : Queries f.F) (value : Text) (scored : List (Text × f.F))
      → assets_for_semantic f q value ≡ some scored
      → unique scored ≡ true
  unfolding assets_for_semantic unique
  semantic_unique q value scored h =
      let (results, h1, h2) = >>=-eq-some (q.smart_search value) _ h in
      let e : semantic_map f [] results ≡ scored = cc in rw (← e) (unique-results f results [] refl)

  date_step :
      (q : Queries f.F) (a : Text) (start end : Option ℕ) (found found' : Found f.F)
      → found.has_executable ≡ has_set found.sets
      → date_cond f q start end found ≡ some found'
      → Grown a (date_ids f q start end) [] found found'
  date_step q a (some s) (some e) found found' k h = ids_step a (q.date_range s e) found found' h
  date_step q a (some s) none found found' k h = no_step a found found' k h
  date_step q a none e found found' k h = no_step a found found' k h

  cond_step :
      (q : Queries f.F) (a raw value : Text) (kind : CondKind) (start end : Option ℕ)
      (found found' : Found f.F)
      → let c : ParsedCond = record {
        raw = raw;
        kind = kind;
        value = value;
        start = start;
        end = end;
      } in
        found.has_executable ≡ has_set found.sets
        → eval_cond f q c found ≡ some found'
        → Grown a (cond_ids f q c) (cond_scores f q a c) found found'
  unfolding eval_cond
  cond_step q a raw value CondKind.person start end found found' k h =
      ids_step a (q.person value) found found' h
  cond_step q a raw value CondKind.place start end found found' k h =
      ids_step a (q.place value) found found' h
  cond_step q a raw value CondKind.date start end found found' k h =
      date_step q a start end found found' k h
  cond_step q a raw value CondKind.semantic start end found found' k h =
      semantic_step a (assets_for_semantic f q value) found found' (semantic_unique q value) h
  cond_step q a raw value CondKind.ocr start end found found' k h =
      ids_step a (q.ocr value) found found' h
  cond_step q a raw value CondKind.unsupported start end found found' k h =
      no_step a found found' k h

  pub conds_step :
      (q : Queries f.F) (a : Text) (cs : List ParsedCond) (found found' : Found f.F)
      → found.has_executable ≡ has_set found.sets
      → eval_conds f q cs found ≡ some found'
      → (found'.has_executable ≡ (found.has_executable || any (λ c. is_some (cond_ids f q c)) cs))
        × (in_all a found'.sets ≡ (in_all a found.sets && all_hold f q a cs))
        × (scores_or_empty (lookup a found'.semantic_scores)
            ≡ scores_or_empty (lookup a found.semantic_scores) ++ all_scores f q a cs)
        × (found'.has_executable ≡ has_set found'.sets)
  unfolding eval_conds all_hold all_scores
  conds_step q a [] found found' k h =
      let e : found ≡ found' = cc in rw (← e) (ground arith, ground arith, sym (append_nil _), k)
  conds_step q a (c ∷ cs) found found' k h =
      let (found1, h1, h2) = >>=-eq-some (eval_cond f q c found) _ h in
      let (e1, i1, s1, k1) = cond_step q a c.raw c.value c.kind c.start c.end found found1 k h1 in
      let (e2, i2, s2, k2) = conds_step q a cs found1 found' k1 h2 in
      (
        e2 ∙ rw e1 (ground arith),
        i2 ∙ rw i1 (ground arith),
        s2
            ∙ rw s1 (
                sym (
                  append_assoc (scores_at a found.semantic_scores) (cond_scores f q a c)
                    (all_scores f q a cs))),
        k2,
      )

  -- The mean of the scores, and 1 where there is none.
  abbrev pub mean_score : List f.F → f.F
  mean_score vs = score_of f (some vs)

  score_of-mean : (o : Option (List f.F)) → score_of f o ≡ mean_score (scores_or_empty o)
  unfolding score_of
  score_of-mean none = refl
  score_of-mean (some vs) = refl

  mem-sets :
      (a : Text) (sets : List (List Text))
      → text_mem a (intersect sets) ≡ (has_set sets && in_all a sets)
  unfolding intersect text_mem
  mem-sets a [] = refl
  mem-sets a (s ∷ sets) = mem-intersect a s sets

  mem-candidates :
      (q : Queries f.F) (exclude : Bool) (a : Text) (found : Found f.F)
      → text_mem a (candidates f q exclude found) ≡ (
          text_mem a (intersect found.sets)
          && not (exclude && text_mem a (videos_of q (intersect found.sets))))
  mem-candidates q true a found = mem-exclude_videos q a (intersect found.sets)
  mem-candidates q false a found = ground arith

  lookup-result_of :
      (q : Queries f.F) (threshold : ℕ) (exclude : Bool) (a : Text) (found : Found f.F)
      → found.has_executable ≡ has_set found.sets
      → lookup a (result_of f q threshold exclude found) ≡ (
          if text_mem a (intersect found.sets)
            && not (exclude && text_mem a (videos_of q (intersect found.sets)))
            && reaches f (score_of f (lookup a found.semantic_scores)) (threshold_score f threshold)
          then some (score_of f (lookup a found.semantic_scores))
          else none)
  unfolding result_of
  lookup-result_of q threshold exclude a found k = elim (Bool-cases (has_set found.sets)) [
    | inl e ↦ rw (k, e, lookup-above, mem-candidates) (ground arith)
    | inr e ↦ rw (k, mem-sets, e) (unfold lookup in refl)
  ]

  -- Where evalParsed succeeds: the assets of which each executable condition holds, if there is such a
  -- condition, are the candidates, and the query for videos is asked of them. An asset is selected
  -- exactly if it is a candidate, no video that the view leaves out, and its score reaches the
  -- threshold; the score, with which it is selected, is the mean of the scores that the semantic
  -- conditions give it, or else 1. So the set that intersect scans plays no part.
  pub eval_parsed_selects :
      (q : Queries f.F) (parsed : List ParsedCond) (threshold : ℕ) (exclude : Bool)
      (scores : List (Text × f.F))
      → eval_parsed f q parsed threshold exclude ≡ some scores
      → (ids : List Text) × ((a : Text)
          → text_mem a ids ≡ (any (λ c. is_some (cond_ids f q c)) parsed && all_hold f q a parsed))
        × ((a : Text)
            → lookup a scores ≡ (
                if text_mem a ids
                  && not (exclude && text_mem a (videos_of q ids))
                  && reaches f (mean_score (all_scores f q a parsed)) (threshold_score f threshold)
                then some (mean_score (all_scores f q a parsed))
                else none))
  unfolding eval_parsed in_all lookup
  eval_parsed_selects q parsed threshold exclude scores h =
      let (found, h1, h2) = >>=-eq-some (eval_conds f q parsed (nothing_found f)) _ h in
      let e : result_of f q threshold exclude found ≡ scores = cc in
      (
        intersect found.sets,
        λ a.
            let (e1, i1, s1, k1) = conds_step q a parsed (nothing_found f) found refl h1 in
            mem-sets a found.sets ∙ rw (← k1, e1, i1) refl,
        λ a.
            let (e1, i1, s1, k1) = conds_step q a parsed (nothing_found f) found refl h1 in
            ap (lookup a) (sym e)
            ∙ lookup-result_of q threshold exclude a found k1
            ∙ rw (score_of-mean (lookup a found.semantic_scores), s1) refl,
      )
