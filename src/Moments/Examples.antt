-- ===== src/Moments/Examples.antt =====
-- A hidden moment with a pinned and an excluded asset.
use nimo_os_photos.Prelude.{
  ◌≡◌, refl, Bool, true, false, none, some, [], ◌∷◌, Text, text, text_eq, text_mem, lookup, insert,
  delete, alter, keep_keys, pair_eq, thousandths, ℤ, pos,
}
use nimo_os_photos.Moments.Rows.{Moment, Member, EditOp, AssetState, Store}
use nimo_os_photos.Moments.Derived.{
  replay_pins, apply_moment_edits, has_edits, refresh_moment_derived,
}
use nimo_os_photos.Moments.Sync.{
  MomentAsset, MomentDraft, SyncFaults, upsert_members, sync_draft, sync_drafts,
  sync_recipe_moments,
}
use nimo_os_photos.Moments.Calls.{CallFaults, edit_one, edit_all, apply_moment_edit_op}
use nimo_os_photos.Moments.Written.{member_in, chosen}
use nimo_os_photos.Moments.Membership.{sync_members}
use nimo_os_photos.Moments.Marks.{shown_at, redrafted, sync_keeps_marks}
use nimo_os_photos.Moments.Gone.{hidden_once_again}
use nimo_os_photos.Moments.Edited.{Shows, edit_keeps_fresh}

abbrev trip : Moment
trip = record {
  recipe_key = text "r";
  title = text "Rome";
  subtitle = text "";
  cover_asset_id = some (text "p");
  time_from = none;
  time_to = none;
  place = text "";
  asset_count = 1;
  named_by_llm = true;
  created_at = 1;
  updated_at = 1;
  sort_order = some 10;
  hidden = true;
}

abbrev here : AssetState
here = record { indexed = true; deleted = false; offline = false; taken_at = some 5 }

abbrev store : Store ℤ
store = record {
  moments = (text "m", trip) ∷ [];
  members =
      (
        (text "m", text "p"),
        record { featured = false; score = pos 0; manual = true; added_at = some 1 },
      )
      ∷ [];
  edits =
      ((text "m", text "p"), record { op = EditOp.pin; created_at = 1 })
      ∷ ((text "m", text "q"), record { op = EditOp.exclude; created_at = 1 })
      ∷ [];
  assets = (text "p", here) ∷ (text "q", here) ∷ (text "x", here) ∷ [];
}

abbrev found : Text → MomentAsset ℤ
found id = record { asset_id = id; featured = true; score = pos 500; manual = false }

abbrev draft : MomentDraft ℤ
draft = record {
  id = text "m";
  recipe_key = text "r";
  title = text "Trip";
  subtitle = text "";
  cover_asset_id = some (text "x");
  time_from = none;
  time_to = none;
  place = text "";
  asset_count = 2;
  assets = found (text "q") ∷ found (text "x") ∷ [];
}

abbrev no_faults : SyncFaults
no_faults = record { begin = false; draft = λ id. false; delete = false; commit = false }

abbrev synced : Store ℤ × Bool
synced = sync_recipe_moments thousandths no_faults 7 8 (text "r") (draft ∷ []) store

syncs : synced.1 ≡ true
unfolding sync_recipe_moments sync_drafts sync_draft refresh_moment_derived lookup insert text_eq
syncs = refl

sync_members_example :
    member_in (text "m") (text "q") synced.0.members ≡ chosen draft store (text "m") (text "q")
unfolding text_eq
sync_members_example =
    sync_members thousandths no_faults 7 8 (text "m") (text "q") (text "r") (draft ∷ []) draft store
      syncs refl

excluded_stays_out : chosen draft store (text "m") (text "q") ≡ false
unfolding text_eq text_mem lookup
excluded_stays_out = refl

sync_keeps_marks_example :
    shown_at (text "m") synced.0 ≡ some (redrafted 7 draft (shown_at (text "m") store))
unfolding text_eq
sync_keeps_marks_example =
    sync_keeps_marks thousandths no_faults 7 8 (text "m") (text "r") (draft ∷ []) draft store syncs
      refl

abbrev emptied : Store ℤ
emptied = record store { moments = []; members = []; edits = [] }

abbrev made : Moment
made = record {
  recipe_key = text "r";
  title = text "Trip";
  subtitle = text "";
  cover_asset_id = some (text "x");
  time_from = none;
  time_to = none;
  place = text "";
  asset_count = 2;
  named_by_llm = false;
  created_at = 9;
  updated_at = 9;
  sort_order = none;
  hidden = false;
}

abbrev made_member : Member ℤ
made_member = record { featured = true; score = pos 500; manual = false; added_at = some 9 }

abbrev refilled : Store ℤ
refilled = record store {
  moments = (text "m", made) ∷ [];
  members = ((text "m", text "q"), made_member) ∷ ((text "m", text "x"), made_member) ∷ [];
  edits = [];
}

drops : sync_recipe_moments thousandths no_faults 7 8 (text "r") [] store ≡ (emptied, true)
unfolding sync_recipe_moments sync_drafts keep_keys lookup text_eq text_mem
drops = refl

refills :
    sync_recipe_moments thousandths no_faults 9 10 (text "r") (draft ∷ []) emptied
    ≡ (refilled, true)
unfolding sync_recipe_moments sync_drafts sync_draft upsert_members apply_moment_edits replay_pins
    keep_keys lookup insert text_eq text_mem pair_eq
refills = refl

hidden_once_again_example :
    (shown_at (text "m") refilled ≡ some (text "r", text "Trip", false, none, false, 9))
    × (has_edits (text "m") refilled.edits ≡ false)
unfolding text_eq text_mem lookup
hidden_once_again_example =
    hidden_once_again thousandths no_faults no_faults 7 8 9 10 (text "m") (text "r") [] (draft ∷ [])
      draft (text "r", text "Rome", true, some 10, true, 1) store emptied refilled refl refl refl
      refl drops refills

abbrev plain : CallFaults
plain = record { begin = false; asset = λ id. false; finish = false }

abbrev left : Store ℤ
left = record store {
  moments = (text "m", record trip { asset_count = 0; cover_asset_id = none; updated_at = 8 }) ∷ [];
  members = [];
  edits =
      ((text "m", text "p"), record { op = EditOp.exclude; created_at = 7 })
      ∷ ((text "m", text "q"), record { op = EditOp.exclude; created_at = 1 })
      ∷ [];
}

excludes :
    apply_moment_edit_op thousandths plain 7 8 EditOp.exclude
      (text "m")
      (text "p" ∷ text "z" ∷ [])
      store
    ≡ (left, some 0)
unfolding apply_moment_edit_op edit_all edit_one refresh_moment_derived lookup insert delete alter
    text_eq pair_eq
excludes = refl

edit_keeps_fresh_example : Shows (text "m") (0, left)
unfolding lookup text_eq pair_eq
edit_keeps_fresh_example =
    edit_keeps_fresh thousandths plain 8 (text "m") 7 0 EditOp.exclude (text "p" ∷ text "z" ∷ [])
      store left refl excludes
