-- ===== src/SmartViews/Evaluate.antt =====
-- service/smartview.go: Evaluate, the reconciliation of the rows of a view with the assets that its
-- conditions select. The keys of a Go map are visited in some order; here a loop over one runs from the
-- last entry of its list. The conditions are kept as lists, and not as JSON; the column origin holds
-- 0, 1 or 2. The clock is an argument, and Faults says which statements fail.
use nimo_os_photos.Prelude.{
  ℕ, Bool, true, false, ◌&&◌, ◌||◌, not, Option, none, some, List, [], ◌∷◌, Text, text, text_Eq,
  text_eq, pair_Eq, lookup, insert, delete, is_some, ◌>>=◌, Float64, if◌then◌else◌,
}
use nimo_os_photos.Assets.{Table}
use nimo_os_photos.SmartViews.Scores.{ParsedCond, Queries, parse_with_desc_fallback, eval_parsed}

-- The column origin: 0, 1 and 2.
pub data Origin : Type 0 where
  auto pinned excluded : Origin

pub record Match (F : Type 0) : Type 0 where
  pub match_score : F
  pub matched_at : ℕ
  pub origin : Origin

-- The columns of smart_views that the operations use.
pub record View : Type 0 where
  pub conds_raw : List Text
  pub conds_parsed : List ParsedCond
  pub description : Text
  pub threshold : ℕ
  pub live : Bool
  pub include_videos : Bool
  pub evaluated_at : Option ℕ

pub record Activity : Type 0 where
  pub view : Text
  pub event_type : Text
  pub asset_ids : List Text

-- The primary key of smart_view_matches: the view and the asset.
abbrev pub MatchKey : Type 0
MatchKey = Text × Text

abbrev pub Matches : Type 0 → Type 0
Matches F = List (MatchKey × Match F)

pub record Store (F : Type 0) : Type 0 where
  pub views : List (Text × View)
  pub assets : Table
  pub matches : Matches F
  pub activity : List Activity

pub data Result (A : Type 0) : Type 0 where
  done : A → Result A
  not_found : Result A
  db_error : Result A

-- Which statements fail; those of a loop by the asset that they are for.
pub record Faults : Type 0 where
  pub view : Bool
  pub parsed : Bool
  pub existing : Bool
  pub begin : Bool
  pub commit : Bool
  pub log : Bool
  pub touch : Bool
  pub asset : Text → Bool
  pub select : Text → Bool
  pub write : Text → Bool

pub record Env (F : Type 0) : Type 0 where
  pub queries : Queries F
  -- ParseConditions, with the database and the clock of the call.
  pub parse_conditions : List Text → List ParsedCond

-- A row of the user meets no statement, which so cannot fail.
abbrev pub is_manual : Option Origin → Bool
is_manual none = false
is_manual (some Origin.auto) = false
is_manual (some Origin.pinned) = true
is_manual (some Origin.excluded) = true

unfoldable pub log_matched : Bool → Text → List Text → List Activity → List Activity
log_matched fault id [] log = log
log_matched fault id (aid ∷ aids) log =
    if fault
    then log
    else record { view = id; event_type = text "matched"; asset_ids = aid ∷ aids } ∷ log

unfoldable pub update_view :
    Bool → Text → (View → View) → Option View → List (Text × View) → List (Text × View)
update_view fault id change none views = views
update_view fault id change (some v) views = if fault then views else insert id (change v) views

module _ {F : Type 0} where
  -- SELECT asset_id, origin FROM smart_view_matches WHERE smart_view_id=?
  unfoldable pub existing_of : Text → Matches F → List (Text × Origin)
  existing_of id [] = []
  existing_of id (((view, aid), m) ∷ ms) =
      let rest = existing_of id ms in if text_eq view id then insert aid m.origin rest else rest

  -- UPDATE … SET match_score=? of one row.
  abbrev pub set_score : MatchKey → F → Option (Match F) → Matches F → Matches F
  set_score k score none ms = ms
  set_score k score (some m) ms = insert k (record m { match_score = score }) ms

  -- The statement for one selected asset, by the origin of its row before the transaction.
  abbrev pub upsert : ℕ → MatchKey → F → Option Origin → Matches F → Matches F
  upsert now k score none ms =
      insert k (record { match_score = score; matched_at = now; origin = Origin.auto }) ms
  upsert now k score (some Origin.auto) ms = set_score k score (lookup k ms) ms
  upsert now k score (some Origin.pinned) ms = ms
  upsert now k score (some Origin.excluded) ms = ms

  abbrev pub upsert_one :
      (Text → Bool) → ℕ → MatchKey → F → Option Origin → Matches F → Option (Matches F)
  upsert_one fault now k score org ms =
      if fault k.1 && not (is_manual org) then none else some (upsert now k score org ms)

  unfoldable pub upsert_all :
      (Text → Bool)
      → ℕ
      → Text
      → List (Text × Origin)
      → List (Text × F)
      → Matches F
      → Option (Matches F)
  upsert_all fault now id existing [] ms = some ms
  upsert_all fault now id existing ((aid, score) ∷ scores) ms = do
    ms' ← upsert_all fault now id existing scores ms
    upsert_one fault now (id, aid) score (lookup aid existing) ms'

  -- A row of the recompute whose asset is no longer selected.
  abbrev pub is_gone : List (Text × F) → Text → Origin → Bool
  is_gone scores aid Origin.auto = not (is_some (lookup aid scores))
  is_gone scores aid Origin.pinned = false
  is_gone scores aid Origin.excluded = false

  abbrev pub delete_one : (Text → Bool) → MatchKey → Bool → Matches F → Option (Matches F)
  delete_one fault k gone ms =
      if gone then (if fault k.1 then none else some (delete k ms)) else some ms

  unfoldable pub delete_gone :
      (Text → Bool) → Text → List (Text × F) → List (Text × Origin) → Matches F → Option (Matches F)
  delete_gone fault id scores [] ms = some ms
  delete_gone fault id scores ((aid, org) ∷ existing) ms = do
    ms' ← delete_gone fault id scores existing ms
    delete_one fault (id, aid) (is_gone scores aid org) ms'

  -- The transaction of Evaluate up to its commit.
  unfoldable pub reconcile :
      (Text → Bool) → ℕ → Text → List (Text × F) → Matches F → Option (Matches F)
  reconcile fault now id scores ms = do
    ms' ← upsert_all fault now id (existing_of id ms) scores ms
    delete_gone fault id scores (existing_of id ms) ms'

  unfoldable pub added_ids : List (Text × Origin) → List (Text × F) → List Text
  added_ids existing [] = []
  added_ids existing ((aid, score) ∷ scores) =
      let rest = added_ids existing scores in
      if is_some (lookup aid existing) then rest else aid ∷ rest

  unfoldable pub commit_evaluate :
      Faults → ℕ → Text → List (Text × F) → Option (Matches F) → Store F → Store F × Result Unit
  commit_evaluate f now id scores none s = (s, db_error)
  commit_evaluate f now id scores (some ms) s = if f.commit then (s, db_error) else (
    record s {
      matches = ms;
      activity = log_matched f.log id (added_ids (existing_of id s.matches) scores) s.activity;
      views =
          update_view f.touch id (λ v. record v { evaluated_at = some now }) (lookup id s.views)
            s.views;
    },
    done tt,
  )

  unfoldable pub evaluate_scored :
      Faults → ℕ → Text → Option (List (Text × F)) → Store F → Store F × Result Unit
  evaluate_scored f now id none s = (s, db_error)
  evaluate_scored f now id (some scores) s =
      if f.existing || f.begin
      then (s, db_error)
      else commit_evaluate f now id scores (reconcile f.write now id scores s.matches) s

module _ (r : Float64) where
  -- The conditions of a view as they parse now.
  abbrev pub parsed_now : Env r.F → View → List ParsedCond
  parsed_now e v = parse_with_desc_fallback (e.parse_conditions v.conds_raw) v.description

  -- The assets that a view selects now.
  abbrev pub selected : Env r.F → View → Option (List (Text × r.F))
  selected e v = eval_parsed r e.queries (parsed_now e v) v.threshold (not v.include_videos)

  unfoldable pub evaluate_view :
      Env r.F → Faults → ℕ → Text → Option View → Store r.F → Store r.F × Result Unit
  evaluate_view e f now id none s = (s, not_found)
  evaluate_view e f now id (some v) s = evaluate_scored f now id (selected e v) (record s {
    views =
        update_view f.parsed id (λ w. record w { conds_parsed = parsed_now e v }) (some v) s.views;
  })

  unfoldable pub evaluate : Env r.F → Faults → ℕ → Text → Store r.F → Store r.F × Result Unit
  evaluate e f now id s =
      if f.view then (s, db_error) else evaluate_view e f now id (lookup id s.views) s
