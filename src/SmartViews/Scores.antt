-- ===== src/SmartViews/Scores.antt =====
-- service/smartview.go: parseWithDescFallback, evalParsed and intersect. A Go set of ids is the list
-- of its keys, each once, and a Go map of ids an association list. The answers of the queries are
-- functions, `none` where the query fails; a time is a number.
use nimo_os_photos.Prelude.{
  ℕ, Bool, true, false, ◌&&◌, ◌||◌, not, Option, none, some, List, [], ◌∷◌, ◌++◌, map, Text,
  text_Eq, text_mem, is_empty, lookup, insert, keep, length, ltb, ◌>>=◌, Float64, if◌then◌else◌,
}
use nimo_os_photos.Albums.{trim_space}

pub data CondKind : Type 0 where
  person place date semantic ocr unsupported : CondKind

pub record ParsedCond : Type 0 where
  pub raw : Text
  pub kind : CondKind
  pub value : Text
  pub start : Option ℕ
  pub end : Option ℕ

-- assetsForPerson, assetsForPlace, assetsForDateRange, assetsForOCR, SmartSearch with the match score
-- of each result, and the videos among some ids.
pub record Queries (F : Type 0) : Type 0 where
  pub person : Text → Option (List Text)
  pub place : Text → Option (List Text)
  pub date_range : ℕ → ℕ → Option (List Text)
  pub ocr : Text → Option (List Text)
  pub smart_search : Text → Option (List (Text × Option F))
  pub videos : List Text → Option (List Text)

-- Each condition is unsupported.
unfoldable pub none_executable : List ParsedCond → Bool
none_executable [] = true
none_executable (c ∷ cs) =
    let rest = none_executable cs in elim c.kind [ CondKind.unsupported ↦ rest | _ ↦ false ]

-- The argument is ParseConditions of the conditions.
unfoldable pub parse_with_desc_fallback : List ParsedCond → Text → List ParsedCond
parse_with_desc_fallback parsed description =
    let desc = trim_space description in
    if is_empty desc || not (none_executable parsed)
    then parsed
    else parsed
      ++ (record { raw = desc; kind = CondKind.semantic; value = desc; start = none; end = none }
          ∷ [])

-- The id is in each of the sets.
unfoldable pub in_all : Text → List (List Text) → Bool
in_all id [] = true
in_all id (s ∷ sets) = text_mem id s && in_all id sets

-- The first of the smallest sets.
unfoldable pub smallest : List Text → List (List Text) → List Text
smallest base [] = base
smallest base (s ∷ sets) = smallest (if ltb (length s) (length base) then s else base) sets

unfoldable pub intersect : List (List Text) → List Text
intersect [] = []
intersect (s ∷ sets) = keep (λ id. in_all id (s ∷ sets)) (smallest s sets)

unfoldable pub drop_videos : List Text → Option (List Text) → List Text
drop_videos ids none = ids
drop_videos ids (some videos) = keep (λ id. not (text_mem id videos)) ids

unfoldable pub exclude_videos : {F : Type 0} → Queries F → List Text → List Text
exclude_videos q [] = []
exclude_videos q (id ∷ ids) = drop_videos (id ∷ ids) (q.videos (id ∷ ids))

-- The state of evalParsed over the conditions.
pub record Found (F : Type 0) : Type 0 where
  pub sets : List (List Text)
  pub semantic_scores : List (Text × List F)
  pub has_executable : Bool

module _ {F : Type 0} where
  abbrev pub add_set : List Text → Found F → Found F
  add_set ids found = record found { sets = found.sets ++ (ids ∷ []); has_executable = true }

  abbrev pub scores_or_empty : Option (List F) → List F
  scores_or_empty none = []
  scores_or_empty (some vs) = vs

  unfoldable pub add_scores : List (Text × F) → List (Text × List F) → List (Text × List F)
  add_scores [] scores = scores
  add_scores ((aid, sc) ∷ scored) scores =
      add_scores scored (insert aid (scores_or_empty (lookup aid scores) ++ (sc ∷ [])) scores)

  abbrev pub keys : List (Text × F) → List Text
  keys m = map (λ e. e.0) m

  abbrev pub add_semantic : List (Text × F) → Found F → Found F
  add_semantic scored found = record (add_set (keys scored) found) {
    semantic_scores = add_scores scored found.semantic_scores;
  }

module _ (f : Float64) where
  abbrev match_score : Option f.F → f.F
  match_score none = f.lit 0 1
  match_score (some sc) = sc

  -- A later result of an id replaces an earlier one.
  unfoldable pub semantic_map : List (Text × f.F) → List (Text × Option f.F) → List (Text × f.F)
  semantic_map out [] = out
  semantic_map out ((id, sc) ∷ results) = semantic_map (insert id (match_score sc) out) results

  unfoldable pub assets_for_semantic : Queries f.F → Text → Option (List (Text × f.F))
  assets_for_semantic q query = do results ← q.smart_search query; some (semantic_map [] results)

  abbrev pub date_cond : Queries f.F → Option ℕ → Option ℕ → Found f.F → Option (Found f.F)
  date_cond q (some start) (some end) found = do
    ids ← q.date_range start end
    some (add_set ids found)
  date_cond q _ _ found = some found

  -- One round of the loop over the conditions.
  unfoldable pub eval_cond : Queries f.F → ParsedCond → Found f.F → Option (Found f.F)
  eval_cond q c found = elim c.kind [
    | CondKind.person ↦ do ids ← q.person c.value; some (add_set ids found)
    | CondKind.place ↦ do ids ← q.place c.value; some (add_set ids found)
    | CondKind.date ↦ date_cond q c.start c.end found
    | CondKind.ocr ↦ do ids ← q.ocr c.value; some (add_set ids found)
    | CondKind.semantic ↦ do
      scored ← assets_for_semantic q c.value
      some (add_semantic scored found)
    | CondKind.unsupported ↦ some found
  ]

  unfoldable pub eval_conds : Queries f.F → List ParsedCond → Found f.F → Option (Found f.F)
  eval_conds q [] found = some found
  eval_conds q (c ∷ cs) found = do found' ← eval_cond q c found; eval_conds q cs found'

  unfoldable pub sum_from : f.F → List f.F → f.F
  sum_from sum [] = sum
  sum_from sum (v ∷ vs) = sum_from (f.plus sum v) vs

  -- The mean of the semantic scores of an asset, and 1 for an asset without one.
  unfoldable pub score_of : Option (List f.F) → f.F
  score_of none = f.lit 1 1
  score_of (some []) = f.lit 1 1
  score_of (some (v ∷ vs)) = f.div (sum_from (f.lit 0 1) (v ∷ vs)) (f.lit (length (v ∷ vs)) 1)

  abbrev pub reaches : f.F → f.F → Bool
  reaches score thr = f.lt thr score || f.feq score thr

  unfoldable pub above : f.F → List (Text × List f.F) → List Text → List (Text × f.F)
  above thr scores [] = []
  above thr scores (aid ∷ ids) =
      let rest = above thr scores ids in
      let score = score_of (lookup aid scores) in
      if reaches score thr then (aid, score) ∷ rest else rest

  unfoldable pub threshold_score : ℕ → f.F
  threshold_score threshold = f.div (f.lit threshold 1) (f.lit 100 1)

  abbrev pub candidates : Queries f.F → Bool → Found f.F → List Text
  candidates q exclude found =
      let inter = intersect found.sets in if exclude then exclude_videos q inter else inter

  unfoldable pub result_of : Queries f.F → ℕ → Bool → Found f.F → List (Text × f.F)
  result_of q threshold exclude found =
      if found.has_executable
      then above (threshold_score threshold) found.semantic_scores (candidates q exclude found)
      else []

  abbrev pub nothing_found : Found f.F
  nothing_found = record { sets = []; semantic_scores = []; has_executable = false }

  -- The score of each asset that the conditions select, or `none` where a query fails.
  unfoldable pub eval_parsed : Queries f.F → List ParsedCond → ℕ → Bool → Option (List (Text × f.F))
  eval_parsed q parsed threshold exclude = do
    found ← eval_conds q parsed nothing_found
    some (result_of q threshold exclude found)
