-- ===== src/SearchCut.antt =====
-- service/searchcut.go: the tier of best matches of a semantic search. Scores are Go's float64, an
-- interface without laws; the effective alpha of the configuration is an argument.
pub mod Tiers
mod Examples
use nimo_os_photos.Prelude.{
  ℕ, zero, suc, ◌-◌, Bool, true, false, ◌&&◌, ◌||◌, ◌==◌, Option, none, some, List, [], ◌∷◌, Text,
  text, text_eq, length, ltb, is_some, Float64, if◌then◌else◌,
}

pub record Asset (F : Type 0) : Type 0 where
  pub id : Text
  pub matched_by : Text
  pub match_score : Option F
  pub below_cut : Bool

module _ {F : Type 0} where
  -- A semantic hit with a score.
  abbrev pub is_semantic : Asset F → Bool
  is_semantic a = text_eq a.matched_by (text "semantic") && is_some a.match_score

  abbrev pub mark : Asset F → Asset F
  mark a = record a { below_cut = true }

  add_score : Option F → List F → List F
  add_score none scores = scores
  add_score (some s) scores = s ∷ scores

  -- The scores of the semantic hits, in order.
  pub scores_of : List (Asset F) → List F
  scores_of [] = []
  scores_of (a ∷ assets) =
      let rest = scores_of assets in
      if text_eq a.matched_by (text "semantic") then add_score a.match_score rest else rest

  -- Marks the semantic hits from the cut-th on.
  unfoldable pub mark_from : ℕ → List (Asset F) → List (Asset F)
  mark_from cut [] = []
  mark_from cut (a ∷ assets) =
      (if is_semantic a && cut == 0 then mark a else a)
      ∷ mark_from (if is_semantic a then cut - 1 else cut) assets

module _ (f : Float64) where
  -- The largest adjacent gap, the position after it (maxIdx + 1) and the sum of the gaps; `i` is the
  -- index of the first score of the list.
  unfoldable pub gaps : ℕ → f.F → f.F → ℕ → List f.F → f.F × f.F × ℕ
  gaps i sum max_diff after (a ∷ b ∷ scores) =
      let d = f.minus a b in
      let wider = f.lt max_diff d in
      gaps (suc i) (f.plus sum d) (if wider then d else max_diff) (if wider then suc i else after)
        (b ∷ scores)
  gaps i sum max_diff after _ = (sum, max_diff, after)

  -- The index of the first score below the threshold, or else the end.
  unfoldable pub below : f.F → ℕ → List f.F → ℕ
  below threshold i [] = i
  below threshold i (s ∷ scores) =
      let later = below threshold (suc i) scores in if f.lt s threshold then i else later

  -- The significance threshold of a cliff.
  sig_threshold : f.F → ℕ → f.F
  sig_threshold sum n =
      let twice_mean = f.times (f.lit 2 1) (f.div sum (f.lit (n - 1) 1)) in
      if f.lt (f.lit 1 10) twice_mean then twice_mean else f.lit 1 10

  relative_cut : List f.F → f.F → ℕ
  relative_cut [] alpha = 0
  relative_cut (s ∷ scores) alpha = below (f.times alpha s) 1 scores

  at_least_one : ℕ → ℕ
  at_least_one cut = if ltb cut 1 then 1 else cut

  -- The cut before the guard that keeps one hit.
  raw_cut : List f.F → f.F → ℕ
  raw_cut scores alpha =
      let (sum, max_diff, after) = gaps 0 (f.lit 0 1) (f.minus (f.lit 0 1) (f.lit 1 1)) 0 scores in
      let sig = sig_threshold sum (length scores) in
      if f.lt sig max_diff || f.feq sig max_diff then after else relative_cut scores alpha

  pub semantic_cut_index : List f.F → f.F → ℕ
  semantic_cut_index scores alpha =
      if ltb (length scores) 3 then length scores else at_least_one (raw_cut scores alpha)

  pub apply_cut_tiering : f.F → List (Asset f.F) → List (Asset f.F)
  apply_cut_tiering alpha assets = mark_from (semantic_cut_index (scores_of assets) alpha) assets
