-- ===== src/SmartViews/Manual.antt =====
-- service/smartview.go: PinAssets, RemoveAssets and RestoreAssets. The first two write in one
-- transaction, whose failure gives back the old table; RestoreAssets deletes row by row.
use nimo_os_photos.Prelude.{
  ℕ, suc, Bool, true, false, ◌&&◌, ◌||◌, not, Option, none, some, List, [], ◌∷◌, Text, text_Eq,
  pair_Eq, lookup, insert, delete, is_some, ltb, ◌>>=◌, Float64, if◌then◌else◌,
}
use nimo_os_photos.Assets.{AssetRow, Table, select}
use nimo_os_photos.SmartViews.Evaluate.{
  Origin, Match, Matches, MatchKey, View, Store, Result, done, not_found, db_error, Faults, Env,
  evaluate,
}

abbrev pub is_alive : AssetRow → Bool
is_alive r = not (is_some r.deleted_at)

-- SELECT id FROM assets WHERE id=? AND deleted_at IS NULL
abbrev pub asset_ok : Text → Table → Bool
asset_ok aid assets = is_some (select is_alive aid assets)

-- The counters unpinned and excluded, and the table.
abbrev pub Removed : Type 0 → Type 0
Removed F = ℕ × ℕ × Matches F

module _ {F : Type 0} where
  abbrev pub pinned_match : ℕ → F → Match F
  pinned_match now one = record { match_score = one; matched_at = now; origin = Origin.pinned }

  abbrev pub upgraded : F → Match F → Match F
  upgraded one m = record m { match_score = one; origin = Origin.pinned }

  -- A row that another statement changes, counted.
  abbrev pub put : Bool → MatchKey → Match F → ℕ × Matches F → Option (ℕ × Matches F)
  put fault k m (added, ms) = if fault then none else some (suc added, insert k m ms)

  abbrev pub pin_found :
      Bool → F → MatchKey → Match F → Origin → ℕ × Matches F → Option (ℕ × Matches F)
  pin_found fault one k m Origin.pinned acc = some acc
  pin_found fault one k m Origin.auto acc = put fault k (upgraded one m) acc
  pin_found fault one k m Origin.excluded acc = put fault k (upgraded one m) acc

  abbrev pub pin_row :
      Bool → ℕ → F → MatchKey → Option (Match F) → ℕ × Matches F → Option (ℕ × Matches F)
  pin_row fault now one k none acc = put fault k (pinned_match now one) acc
  pin_row fault now one k (some m) acc = pin_found fault one k m m.origin acc

  -- One round of the loop of PinAssets.
  unfoldable pub pin_one :
      Faults → ℕ → F → Text → Table → Text → ℕ × Matches F → Option (ℕ × Matches F)
  pin_one f now one id assets aid acc =
      if f.asset aid || not (asset_ok aid assets)
      then some acc
      else if f.select aid
      then none
      else pin_row (f.write aid) now one (id, aid) (lookup (id, aid) acc.1) acc

  unfoldable pub pin_all :
      Faults → ℕ → F → Text → Table → List Text → ℕ × Matches F → Option (ℕ × Matches F)
  pin_all f now one id assets [] acc = some acc
  pin_all f now one id assets (aid ∷ ids) acc = do
    acc' ← pin_one f now one id assets aid acc
    pin_all f now one id assets ids acc'

  abbrev pub commit_pin : Bool → Option (ℕ × Matches F) → Store F → Store F × Result ℕ
  commit_pin fault none s = (s, db_error)
  commit_pin fault (some (added, ms)) s =
      if fault then (s, db_error) else (record s { matches = ms }, done added)

  -- The argument `one` is the score 1.0.
  unfoldable pub pin_assets : Faults → ℕ → F → Text → List Text → Store F → Store F × Result ℕ
  pin_assets f now one id ids s =
      if f.view
      then (s, db_error)
      else if not (is_some (lookup id s.views))
      then (s, not_found)
      else if f.begin
      then (s, db_error)
      else commit_pin f.commit (pin_all f now one id s.assets ids (0, s.matches)) s

  abbrev pub remove_found : Bool → MatchKey → Match F → Origin → Removed F → Option (Removed F)
  remove_found fault k m Origin.pinned (unpinned, excluded, ms) =
      if fault then none else some (suc unpinned, excluded, delete k ms)
  remove_found fault k m Origin.auto (unpinned, excluded, ms) =
      if fault
      then none
      else some (unpinned, suc excluded, insert k (record m { origin = Origin.excluded }) ms)
  remove_found fault k m Origin.excluded acc = some acc

  abbrev pub remove_row : Bool → MatchKey → Option (Match F) → Removed F → Option (Removed F)
  remove_row fault k none acc = some acc
  remove_row fault k (some m) acc = remove_found fault k m m.origin acc

  -- One round of the loop of RemoveAssets.
  unfoldable pub remove_one : Faults → Text → Text → Removed F → Option (Removed F)
  remove_one f id aid acc =
      if f.select aid then none else remove_row (f.write aid) (id, aid) (lookup (id, aid) acc.2) acc

  unfoldable pub remove_all : Faults → Text → List Text → Removed F → Option (Removed F)
  remove_all f id [] acc = some acc
  remove_all f id (aid ∷ ids) acc = do acc' ← remove_one f id aid acc; remove_all f id ids acc'

  abbrev pub is_excluded : Option (Match F) → Bool
  is_excluded none = false
  is_excluded (some m) = elim m.origin [ Origin.excluded ↦ true | _ ↦ false ]

  -- The loop of RestoreAssets: the count, the table and whether every statement succeeded.
  unfoldable pub restore_all : Faults → Text → List Text → ℕ → Matches F → ℕ × Matches F × Bool
  restore_all f id [] restored ms = (restored, ms, true)
  restore_all f id (aid ∷ ids) restored ms =
      let hit = is_excluded (lookup (id, aid) ms) in
      let rest =
        restore_all f id ids (if hit then suc restored else restored)
          (if hit then delete (id, aid) ms else ms) in
      if f.write aid then (restored, ms, false) else rest

module _ (r : Float64) where
  -- Evaluate, whose error is only logged.
  abbrev pub recompute : Bool → Env r.F → Faults → ℕ → Text → Store r.F → Store r.F
  recompute wanted e f now id s = if wanted then (evaluate r e f now id s).0 else s

  -- The commit of RemoveAssets and what follows; `g` has the failures of Evaluate.
  abbrev pub commit_remove :
      Env r.F
      → Faults
      → Faults
      → ℕ
      → Text
      → View
      → Option (Removed r.F)
      → Store r.F
      → Store r.F × Result (ℕ × ℕ)
  commit_remove e f g now id v none s = (s, db_error)
  commit_remove e f g now id v (some (unpinned, excluded, ms)) s =
      if f.commit then (s, db_error) else (
        recompute (ltb 0 unpinned && v.live) e g now id (record s { matches = ms }),
        done (unpinned, excluded),
      )

  abbrev pub remove_from :
      Env r.F
      → Faults
      → Faults
      → ℕ
      → Text
      → List Text
      → Option View
      → Store r.F
      → Store r.F × Result (ℕ × ℕ)
  remove_from e f g now id ids none s = (s, not_found)
  remove_from e f g now id ids (some v) s =
      if f.begin
      then (s, db_error)
      else commit_remove e f g now id v (remove_all f id ids (0, 0, s.matches)) s

  unfoldable pub remove_assets :
      Env r.F → Faults → Faults → ℕ → Text → List Text → Store r.F → Store r.F × Result (ℕ × ℕ)
  remove_assets e f g now id ids s =
      if f.view then (s, db_error) else remove_from e f g now id ids (lookup id s.views) s

  abbrev pub finish_restore :
      Env r.F → Faults → ℕ → Text → View → ℕ × Matches r.F × Bool → Store r.F → Store r.F × Result ℕ
  finish_restore e g now id v (restored, ms, true) s =
      (recompute (ltb 0 restored && v.live) e g now id (record s { matches = ms }), done restored)
  finish_restore e g now id v (restored, ms, false) s = (record s { matches = ms }, db_error)

  abbrev pub restore_in :
      Env r.F
      → Faults
      → Faults
      → ℕ
      → Text
      → List Text
      → Option View
      → Store r.F
      → Store r.F × Result ℕ
  restore_in e f g now id ids none s = (s, not_found)
  restore_in e f g now id ids (some v) s =
      finish_restore e g now id v (restore_all f id ids 0 s.matches) s

  unfoldable pub restore_assets :
      Env r.F → Faults → Faults → ℕ → Text → List Text → Store r.F → Store r.F × Result ℕ
  restore_assets e f g now id ids s =
      if f.view then (s, db_error) else restore_in e f g now id ids (lookup id s.views) s
