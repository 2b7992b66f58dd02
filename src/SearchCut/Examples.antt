-- ===== src/SearchCut/Examples.antt =====
-- The cut on concrete scores, in thousandths, and instances of the theorems on them.
use nimo_os_photos.Prelude.{ℕ, ◌≡◌, refl, false, some, List, [], ◌∷◌, text, ℤ, pos, thousandths}
use nimo_os_photos.SearchCut.{
  at_least_one, raw_cut, relative_cut, sig_threshold, Asset, semantic_cut_index, gaps, below,
}

-- The production case of the source's comment: the cliff lies after 0.662.
abbrev scores : List ℤ
scores = pos 953 ∷ pos 900 ∷ pos 662 ∷ pos 131 ∷ pos 120 ∷ pos 110 ∷ []

cliff_test : semantic_cut_index thousandths scores (pos 700) ≡ 3
unfolding semantic_cut_index gaps below raw_cut sig_threshold relative_cut at_least_one
cliff_test = refl

abbrev hit : ℕ → Asset ℤ
hit s = record {
  id = text "h";
  matched_by = text "semantic";
  match_score = some (pos s);
  below_cut = false;
}

abbrev ocr : Asset ℤ
ocr = record {
  id = text "o";
  matched_by = text "ocr";
  match_score = some (pos 1000);
  below_cut = false;
}

abbrev hits : List (Asset ℤ)
hits = ocr ∷ hit 953 ∷ hit 900 ∷ hit 662 ∷ hit 131 ∷ []
