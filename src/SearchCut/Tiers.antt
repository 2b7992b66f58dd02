-- ===== src/SearchCut/Tiers.antt =====
-- The cut lies within the scores, and the tiering marks the tail of the semantic hits and no more.
use nimo_os_photos.Prelude.{
  ℕ, zero, suc, ◌+◌, ◌-◌, ◌≤◌, ◌≡◌, refl, true, not, List, [], ◌∷◌, ◌++◌, map, length, take, drop,
  keep, ltb, ◌==◌, Float64, arith, if◌then◌else◌,
}
use nimo_os_photos.SearchCut.{
  Asset, is_semantic, mark, scores_of, mark_from, gaps, below, relative_cut, at_least_one, raw_cut,
  semantic_cut_index, apply_cut_tiering,
}

module _ (f : Float64) where
  gaps-after :
      (i : ℕ) (sum d : f.F) (after : ℕ) (scores : List f.F)
      → after ≤ i
      → (gaps f i sum d after scores).2 ≤ i + length scores
  unfolding gaps
  gaps-after i sum d after [] h = omega arith
  gaps-after i sum d after (a ∷ []) h = omega arith
  gaps-after i sum d after (a ∷ b ∷ scores) h = omega (
    arith,
    gaps-after (suc i) (f.plus sum (f.minus a b)) _ (if f.lt d (f.minus a b) then suc i else after)
        (b ∷ scores) (ground arith),
  )

  below-end : (t : f.F) (i : ℕ) (scores : List f.F) → below f t i scores ≤ i + length scores
  unfolding below
  below-end t i [] = omega arith
  below-end t i (s ∷ scores) = ground (arith, below-end t (suc i) scores)

  relative_cut-end : (scores : List f.F) (alpha : f.F) → relative_cut f scores alpha ≤ length scores
  unfolding relative_cut
  relative_cut-end [] alpha = omega arith
  relative_cut-end (s ∷ scores) alpha = omega (arith, below-end (f.times alpha s) 1 scores)

  raw_cut-end : (scores : List f.F) (alpha : f.F) → raw_cut f scores alpha ≤ length scores
  unfolding raw_cut
  raw_cut-end scores alpha = ground (
    arith,
    relative_cut-end scores alpha,
    gaps-after 0 (f.lit 0 1) (f.minus (f.lit 0 1) (f.lit 1 1)) 0 scores (omega arith),
  )

  -- Whatever the scores, and whatever the floating-point arithmetic does: the cut is no more than
  -- their number, and at least 1 if there is a score; fewer than 3 scores are not cut.
  semantic_cut_index_bounds :
      (scores : List f.F) (alpha : f.F)
      → (semantic_cut_index f scores alpha ≤ length scores)
        × ((ltb 0 (semantic_cut_index f scores alpha)) ≡ ltb 0 (length scores))
        × ((if ltb (length scores) 3
              then semantic_cut_index f scores alpha == length scores
              else true)
            ≡ true)
  unfolding semantic_cut_index at_least_one
  semantic_cut_index_bounds scores alpha = ground (arith, raw_cut-end scores alpha)

module _ {F : Type 0} where
  semantic-mark_from :
      (cut : ℕ) (assets : List (Asset F))
      → keep is_semantic (mark_from cut assets)
        ≡ take cut (keep is_semantic assets) ++ map mark (drop cut (keep is_semantic assets))
  unfolding mark_from
  semantic-mark_from zero [] = refl
  semantic-mark_from (suc cut) [] = refl
  semantic-mark_from zero (a ∷ assets) = ground (arith, semantic-mark_from zero assets)
  semantic-mark_from (suc cut) (a ∷ assets) =
      ground (arith, semantic-mark_from cut assets, semantic-mark_from (suc cut) assets)

  other-mark_from :
      (cut : ℕ) (assets : List (Asset F))
      → keep (λ a. not (is_semantic a)) (mark_from cut assets)
        ≡ keep (λ a. not (is_semantic a)) assets
  unfolding mark_from
  other-mark_from cut [] = refl
  other-mark_from cut (a ∷ assets) =
      ground (arith, other-mark_from cut assets, other-mark_from (cut - 1) assets)

-- The tiering marks the semantic hits from the cut on as below it, leaves the semantic hits before the
-- cut, and leaves every asset that is not a semantic hit, OCR hits among them; the order stays.
apply_cut_tiering_exact :
    (f : Float64) (alpha : f.F) (assets : List (Asset f.F))
    → let cut = semantic_cut_index f (scores_of assets) alpha in
      let hits = keep is_semantic assets in
      (keep is_semantic (apply_cut_tiering f alpha assets)
        ≡ take cut hits ++ map mark (drop cut hits))
      × (keep (λ a. not (is_semantic a)) (apply_cut_tiering f alpha assets)
          ≡ keep (λ a. not (is_semantic a)) assets)
unfolding apply_cut_tiering
apply_cut_tiering_exact f alpha assets =
    let cut = semantic_cut_index f (scores_of assets) alpha in
    (semantic-mark_from cut assets, other-mark_from cut assets)
