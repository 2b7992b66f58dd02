-- ===== src/SmartViews/Selection.antt =====
-- Which assets evalParsed selects, and with which score: a description that takes each asset by itself.
use nimo_os_photos.Prelude.{
  ℕ, ◌≡◌, refl, ap, ◌∙◌, Bool, true, ◌&&◌, not, Option, none, some, List, [], ◌∷◌, ◌++◌, Text,
  text_Eq, text_eq, text_eq→≡, text_mem, lookup, keep, length, ltb, Float64, arith, if◌then◌else◌,
}
use nimo_os_photos.SmartViews.Scores.{
  CondKind, ParsedCond, Queries, in_all, smallest, intersect, drop_videos, exclude_videos, keys,
  assets_for_semantic, score_of, reaches, above,
}

same_at {κ} : {B : Type κ} (p : Text → B) (a b : Text) → text_eq a b ≡ true → p a ≡ p b
same_at p a b h = ap p (text_eq→≡ a b h)

mem-keep :
    (p : Text → Bool) (a : Text) (s : List Text) → text_mem a (keep p s) ≡ (text_mem a s && p a)
unfolding text_mem
mem-keep p a [] = refl
mem-keep p a (x ∷ s) = ground (arith, mem-keep p a s, same_at p x a)

in_all-smallest :
    (a : Text) (base : List Text) (sets : List (List Text))
    → text_mem a base && in_all a sets ≡ true
    → text_mem a (smallest base sets) ≡ true
unfolding smallest in_all
in_all-smallest a base [] h = ground arith
in_all-smallest a base (s ∷ sets) h =
    in_all-smallest a (if ltb (length s) (length base) then s else base) sets (ground arith)

-- Which of the sets is scanned plays no part.
pub mem-intersect :
    (a : Text) (s : List Text) (sets : List (List Text))
    → text_mem a (intersect (s ∷ sets)) ≡ in_all a (s ∷ sets)
unfolding intersect in_all
mem-intersect a s sets =
    mem-keep (λ id. in_all id (s ∷ sets)) a (smallest s sets)
    ∙ ground (arith, in_all-smallest a s sets)

videos_answered : Option (List Text) → List Text
videos_answered none = []
videos_answered (some videos) = videos

-- The videos that the query finds among the ids; none where it is not asked or fails.
pub videos_of : {F : Type 0} → Queries F → List Text → List Text
unfolding videos_answered
videos_of q [] = []
videos_of q (id ∷ ids) = videos_answered (q.videos (id ∷ ids))

mem-drop_videos :
    (a : Text) (ids : List Text) (o : Option (List Text))
    → text_mem a (drop_videos ids o) ≡ (text_mem a ids && not (text_mem a (videos_answered o)))
unfolding drop_videos videos_answered text_mem
mem-drop_videos a ids none = ground arith
mem-drop_videos a ids (some videos) = mem-keep (λ id. not (text_mem id videos)) a ids

pub mem-exclude_videos :
    {F : Type 0} (q : Queries F) (a : Text) (ids : List Text)
    → text_mem a (exclude_videos q ids) ≡ (text_mem a ids && not (text_mem a (videos_of q ids)))
unfolding exclude_videos videos_of text_mem
mem-exclude_videos q a [] = refl
mem-exclude_videos q a (id ∷ ids) = mem-drop_videos a (id ∷ ids) (q.videos (id ∷ ids))

pub lookup-above :
    (f : Float64) (thr : f.F) (scores : List (Text × List f.F)) (a : Text) (ids : List Text)
    → lookup a (above f thr scores ids) ≡ (
        if text_mem a ids && reaches f (score_of f (lookup a scores)) thr
        then some (score_of f (lookup a scores))
        else none)
unfolding above text_mem lookup
lookup-above f thr scores a [] = refl
lookup-above f thr scores a (x ∷ ids) =
    ground (arith, lookup-above f thr scores a ids, same_at (λ y. score_of f (lookup y scores)) x a)

abbrev pub holds_in : Text → Option (List Text) → Bool
holds_in a none = true
holds_in a (some ids) = text_mem a ids

module _ {F : Type 0} where
  abbrev pub keys_of : Option (List (Text × F)) → Option (List Text)
  keys_of none = none
  keys_of (some scored) = some (keys scored)

  abbrev pub one_score : Option F → List F
  one_score none = []
  one_score (some sc) = sc ∷ []

  abbrev pub score_in : Text → Option (List (Text × F)) → List F
  score_in a none = []
  score_in a (some scored) = one_score (lookup a scored)

-- What is asked of an asset by one condition: its set, if it can be executed, and its score.
module _ (f : Float64) where
  abbrev pub date_ids : Queries f.F → Option ℕ → Option ℕ → Option (List Text)
  date_ids q (some start) (some end) = q.date_range start end
  date_ids q _ _ = none

  abbrev pub cond_ids : Queries f.F → ParsedCond → Option (List Text)
  cond_ids q c = elim c.kind [
    | CondKind.person ↦ q.person c.value
    | CondKind.place ↦ q.place c.value
    | CondKind.date ↦ date_ids q c.start c.end
    | CondKind.ocr ↦ q.ocr c.value
    | CondKind.semantic ↦ keys_of (assets_for_semantic f q c.value)
    | CondKind.unsupported ↦ none
  ]

  -- Each condition that can be executed holds of the asset.
  unfoldable pub all_hold : Queries f.F → Text → List ParsedCond → Bool
  all_hold q a [] = true
  all_hold q a (c ∷ cs) = holds_in a (cond_ids q c) && all_hold q a cs

  -- The scores that the semantic conditions give an asset, in order.
  abbrev pub cond_scores : Queries f.F → Text → ParsedCond → List f.F
  cond_scores q a c = elim c.kind [
    | CondKind.semantic ↦ score_in a (assets_for_semantic f q c.value)
    | _ ↦ []
  ]

  unfoldable pub all_scores : Queries f.F → Text → List ParsedCond → List f.F
  all_scores q a [] = []
  all_scores q a (c ∷ cs) = cond_scores q a c ++ all_scores q a cs
