-- ===== src/Moments/Sync.antt =====
-- service/momentstore.go: SyncRecipeMoments. The drafts are those of the mining engine.
use nimo_os_photos.Prelude.{
  ℕ, Bool, true, false, ◌&&◌, ◌||◌, not, Option, none, some, List, [], ◌∷◌, map, Text, text_Eq,
  pair_Eq, text_eq, text_mem, lookup, insert, keep_keys, is_some, Float64, ◌>>=◌, if◌then◌else◌,
}
use nimo_os_photos.Moments.Rows.{Moment, Member, Members, Store, delete_moments}
use nimo_os_photos.Moments.Derived.{
  pinned_alive, apply_moment_edits, has_edits, refresh_moment_derived,
}

pub record MomentAsset (F : Type 0) : Type 0 where
  pub asset_id : Text
  pub featured : Bool
  pub score : F
  pub manual : Bool

pub record MomentDraft (F : Type 0) : Type 0 where
  pub id : Text
  pub recipe_key : Text
  pub title : Text
  pub subtitle : Text
  pub cover_asset_id : Option Text
  pub time_from : Option ℕ
  pub time_to : Option ℕ
  pub place : Text
  pub asset_count : ℕ
  pub assets : List (MomentAsset F)

-- Which statements fail: one for a draft, by its id, the deletion of old moments, and the two ends of the
-- transaction.
pub record SyncFaults : Type 0 where
  pub begin : Bool
  pub draft : Text → Bool
  pub delete : Bool
  pub commit : Bool

-- A moment of the recipe that is not among the ids.
abbrev pub old_moment : Text → List Text → Option Moment → Text → Bool
old_moment recipe ids none id = false
old_moment recipe ids (some m) id = text_eq m.recipe_key recipe && not (text_mem id ids)

module _ {F : Type 0} where
  abbrev pub fresh_row : ℕ → MomentDraft F → Moment
  fresh_row now d = record {
    recipe_key = d.recipe_key;
    title = d.title;
    subtitle = d.subtitle;
    cover_asset_id = d.cover_asset_id;
    time_from = d.time_from;
    time_to = d.time_to;
    place = d.place;
    asset_count = d.asset_count;
    named_by_llm = false;
    created_at = now;
    updated_at = now;
    sort_order = none;
    hidden = false;
  }

  -- ON CONFLICT(id) DO UPDATE
  abbrev pub updated_row : ℕ → MomentDraft F → Moment → Moment
  updated_row now d m = record m {
    recipe_key = d.recipe_key;
    title = if m.named_by_llm then m.title else d.title;
    subtitle = d.subtitle;
    cover_asset_id = d.cover_asset_id;
    time_from = d.time_from;
    time_to = d.time_to;
    place = d.place;
    asset_count = d.asset_count;
    updated_at = now;
  }

  abbrev pub upserted : ℕ → MomentDraft F → Option Moment → Moment
  upserted now d none = fresh_row now d
  upserted now d (some m) = updated_row now d m

  abbrev pub added_at_of : ℕ → Option (Member F) → Option ℕ
  added_at_of now none = some now
  added_at_of now (some m) = m.added_at

  abbrev pub upsert_member : ℕ → Text → MomentAsset F → Members F → Members F
  upsert_member now id a ms =
      insert (id, a.asset_id)
        (record {
          featured = a.featured;
          score = a.score;
          manual = a.manual;
          added_at = added_at_of now (lookup (id, a.asset_id) ms);
        })
        ms

  unfoldable pub upsert_members : ℕ → Text → List (MomentAsset F) → Members F → Members F
  upsert_members now id [] ms = ms
  upsert_members now id (a ∷ xs) ms = upsert_members now id xs (upsert_member now id a ms)

  abbrev pub asset_ids : List (MomentAsset F) → List Text
  asset_ids xs = map (λ a. a.asset_id) xs

  -- The members that the draft does not have, pinned ones that are alive excepted.
  abbrev pub delete_stale : MomentDraft F → Store F → Members F → Members F
  delete_stale d s ms =
      keep_keys
        (λ k.
          not (text_eq k.0 d.id) || text_mem k.1 (asset_ids d.assets) || pinned_alive s d.id k.1)
        ms

  abbrev pub draft_ids : List (MomentDraft F) → List Text
  draft_ids ds = map (λ d. d.id) ds

module _ (r : Float64) where
  abbrev pub score_zero : r.F
  score_zero = r.lit 0 1

  -- The rows and members that a draft writes, before the derived columns.
  abbrev pub written : ℕ → MomentDraft r.F → Store r.F → Store r.F
  written now d s =
      let s' = record s {
        moments = insert d.id (upserted now d (lookup d.id s.moments)) s.moments;
        members = delete_stale d s (upsert_members now d.id d.assets s.members);
      } in
      record s' { members = apply_moment_edits score_zero now d.id s' }

  unfoldable pub sync_draft : SyncFaults → ℕ → ℕ → MomentDraft r.F → Store r.F → Option (Store r.F)
  sync_draft f now later d s =
      if f.draft d.id
      then none
      else if has_edits d.id s.edits
      then refresh_moment_derived r (is_some d.time_from) later d.id (written now d s)
      else some (written now d s)

  unfoldable pub sync_drafts :
      SyncFaults → ℕ → ℕ → List (MomentDraft r.F) → Store r.F → Option (Store r.F)
  sync_drafts f now later [] s = some s
  sync_drafts f now later (d ∷ ds) s = do
    s' ← sync_draft f now later d s
    sync_drafts f now later ds s'

  abbrev pub delete_old : Text → List (MomentDraft r.F) → Store r.F → Store r.F
  delete_old recipe ds s =
      delete_moments (λ id. old_moment recipe (draft_ids ds) (lookup id s.moments) id) s

  abbrev pub sync_body :
      SyncFaults → ℕ → ℕ → Text → List (MomentDraft r.F) → Store r.F → Option (Store r.F)
  sync_body f now later recipe ds s = do
    s' ← sync_drafts f now later ds s
    if f.delete || f.commit then none else some (delete_old recipe ds s')

  -- The store after the call, and whether it succeeded.
  abbrev pub ended : Store r.F → Option (Store r.F) → Store r.F × Bool
  ended s none = (s, false)
  ended s (some s') = (s', true)

  unfoldable pub sync_recipe_moments :
      SyncFaults → ℕ → ℕ → Text → List (MomentDraft r.F) → Store r.F → Store r.F × Bool
  sync_recipe_moments f now later recipe ds s =
      ended s (if f.begin then none else sync_body f now later recipe ds s)
