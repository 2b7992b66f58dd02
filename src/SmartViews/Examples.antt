-- ===== src/SmartViews/Examples.antt =====
-- Runs of the smart views: a view of Ann's photos that show a cat, with a threshold of 70 %.
use nimo_os_photos.Prelude.{
  ◌≡◌, refl, true, false, ◌&&◌, not, none, some, List, [], ◌∷◌, Text, text, text_Eq, text_eq,
  text_mem, pair_Eq, pair_eq, lookup, insert, any, is_some, thousandths, pos, if◌then◌else◌,
}
use nimo_os_photos.Albums.{trim_space}
use nimo_os_photos.SmartViews.Scores.{
  CondKind, ParsedCond, Queries, none_executable, parse_with_desc_fallback, in_all, smallest,
  intersect, add_scores, semantic_map, assets_for_semantic, eval_cond, eval_conds, sum_from,
  score_of, reaches, above, threshold_score, result_of, eval_parsed,
}
use nimo_os_photos.SmartViews.Selection.{videos_of, cond_ids, all_hold, all_scores}
use nimo_os_photos.SmartViews.Conditions.{mean_score, eval_parsed_selects}
use nimo_os_photos.SmartViews.Evaluate.{Origin, Match, View, Store, Env, done, evaluate, selected}
use nimo_os_photos.SmartViews.Reconcile.{reconciled}
use nimo_os_photos.SmartViews.Rows.{quiet, evaluate-quiet, evaluate_rows}
use nimo_os_photos.SmartViews.Membership.{remove, run_call}
use nimo_os_photos.SmartViews.Refinement.{Refines, calls_refine}

abbrev F : Type 0
F = thousandths.F

abbrev queries : Queries F
queries = record {
  person = λ value. some (text "a" ∷ text "b" ∷ text "c" ∷ []);
  place = λ value. some [];
  date_range = λ start end. some [];
  ocr = λ value. none;
  smart_search = λ query. some ((text "a", some (pos 900)) ∷ (text "b", some (pos 300)) ∷ []);
  videos = λ ids. some [];
}

abbrev conds : List ParsedCond
conds =
    record { raw = text "ann"; kind = CondKind.person; value = text "p1"; start = none; end = none }
    ∷ record {
      raw = text "cat";
      kind = CondKind.semantic;
      value = text "cat";
      start = none;
      end = none;
    }
    ∷ []

abbrev scores : List (Text × F)
scores = (text "a", pos 900) ∷ []

env : Env F
env = record { queries = queries; parse_conditions = λ raw. conds }

abbrev view : View
view = record {
  conds_raw = text "ann" ∷ text "cat" ∷ [];
  conds_parsed = [];
  description = [];
  threshold = 70;
  live = true;
  include_videos = true;
  evaluated_at = none;
}

abbrev pinned_row : Match F
pinned_row = record { match_score = pos 1000; matched_at = 1; origin = Origin.pinned }

abbrev auto_row : Match F
auto_row = record { match_score = pos 800; matched_at = 1; origin = Origin.auto }

-- The assets a and b are pinned and d is a match that the conditions no longer select.
abbrev store : Store F
store = record {
  views = (text "v", view) ∷ [];
  assets = [];
  matches =
      ((text "v", text "a"), pinned_row)
      ∷ ((text "v", text "b"), pinned_row)
      ∷ ((text "v", text "d"), auto_row)
      ∷ [];
  activity = [];
}

conds_select : eval_parsed thousandths queries conds 70 false ≡ some scores
unfolding eval_parsed eval_conds eval_cond assets_for_semantic semantic_map add_scores intersect
    smallest in_all result_of above score_of sum_from threshold_score lookup insert text_eq text_mem
conds_select = refl

view_selects : selected thousandths env view ≡ some scores
unfolding env eval_parsed eval_conds eval_cond assets_for_semantic semantic_map add_scores intersect
    smallest in_all result_of above score_of sum_from threshold_score lookup insert text_eq text_mem
    parse_with_desc_fallback none_executable trim_space
view_selects = refl

view_there : lookup (text "v") store.views ≡ some view
unfolding lookup text_eq
view_there = refl

evaluation_done : (evaluate thousandths env quiet 5 (text "v") store).1 ≡ done tt
evaluation_done =
    evaluate-quiet thousandths env 5 (text "v") view scores store view_there view_selects

-- The recompute drops the match of d, and leaves the pinned rows.
evaluate_rows_example :
    lookup (text "v", text "d") (evaluate thousandths env quiet 5 (text "v") store).0.matches ≡ (
      if text_eq (text "v") (text "v")
      then reconciled 5 (lookup (text "d") scores) (lookup (text "v", text "d") store.matches)
      else lookup (text "v", text "d") store.matches)
evaluate_rows_example =
    evaluate_rows thousandths env quiet 5 (text "v") (text "v") (text "d") view scores store
      view_there view_selects evaluation_done

d_goes :
    (if text_eq (text "v") (text "v")
      then reconciled 5 (lookup (text "d") scores) (lookup (text "v", text "d") store.matches)
      else lookup (text "v", text "d") store.matches)
    ≡ none
unfolding lookup text_eq pair_eq
d_goes = refl

-- The user takes a, which the conditions select, and b out of the view: a comes back as a match.
calls_refine_example :
    Refines thousandths
      (remove (text "a" ∷ text "b" ∷ []))
      true
      scores
      (text "v")
      store
      (run_call thousandths env 5 (text "v") (remove (text "a" ∷ text "b" ∷ [])) store)
calls_refine_example =
    calls_refine thousandths env 5 (text "v") (remove (text "a" ∷ text "b" ∷ [])) view scores store
      view_there view_selects

eval_parsed_selects_example :
    (ids : List Text) × ((a : Text)
      → text_mem a ids ≡ (
          any (λ c. is_some (cond_ids thousandths queries c)) conds
          && all_hold thousandths queries a conds))
    × ((a : Text)
        → lookup a scores ≡ (
            if text_mem a ids
              && not (false && text_mem a (videos_of queries ids))
              && reaches thousandths
                  (mean_score thousandths (all_scores thousandths queries a conds))
                  (threshold_score thousandths 70)
            then some (mean_score thousandths (all_scores thousandths queries a conds))
            else none))
eval_parsed_selects_example =
    eval_parsed_selects thousandths queries conds 70 false scores conds_select
