-- ===== src/Moments/Derived.antt =====
-- service/momentstore.go: applyMomentEdits, refreshMomentDerived and momentHasTimeWindow.
use nimo_os_photos.Prelude.{
  ℕ, Bool, true, false, ◌&&◌, ◌||◌, not, Option, none, some, List, [], ◌∷◌, Text, text_Eq, pair_Eq,
  text_eq, text_lt, keep, any, length, lookup, insert, alter, keep_keys, is_some, min, max, Float64,
  if◌then◌else◌,
}
use nimo_os_photos.Moments.Rows.{
  Moment, Member, Edit, AssetState, MemberKey, Members, Edits, Store, is_alive, is_pin,
}

-- An edit of the moment on the asset.
abbrev pub edit_on : Text → Text → MemberKey × Edit → Bool
edit_on id aid (k, e) = text_eq k.0 id && text_eq k.1 aid

abbrev pub pinned : Text → Text → Edits → Bool
pinned id aid edits = any (λ x. edit_on id aid x && is_pin x.1.op) edits

abbrev pub excluded : Text → Text → Edits → Bool
excluded id aid edits = any (λ x. edit_on id aid x && not (is_pin x.1.op)) edits

abbrev pub pinned_alive : {F : Type 0} → Store F → Text → Text → Bool
pinned_alive s id aid = pinned id aid s.edits && is_alive s.assets aid

-- COUNT(*) of moment_edits, compared with 0.
abbrev pub has_edits : Text → Edits → Bool
has_edits id edits = any (λ x. text_eq x.0.0 id) edits

abbrev pub taken_of : Option AssetState → Option ℕ
taken_of none = none
taken_of (some a) = a.taken_at

-- MIN and MAX, which pass over NULL.
abbrev pub joined : (ℕ → ℕ → ℕ) → Option ℕ → Option ℕ → Option ℕ
joined f none b = b
joined f (some a) none = some a
joined f (some a) (some b) = some (f a b)

module _ {F : Type 0} where
  -- INSERT OR IGNORE
  abbrev pub insert_new : MemberKey → Member F → Members F → Members F
  insert_new k m ms = if is_some (lookup k ms) then ms else insert k m ms

  -- The rows that the replay of pins adds; `nil` is the score 0.
  unfoldable pub replay_pins :
      F → ℕ → Text → List (Text × AssetState) → Edits → Members F → Members F
  replay_pins nil now id assets [] ms = ms
  replay_pins nil now id assets ((k, e) ∷ edits) ms = replay_pins nil now id assets edits (
      if text_eq k.0 id && is_pin e.op && is_alive assets k.1
      then insert_new k
          (record { featured = false; score = nil; manual = true; added_at = some now }) ms
      else ms)

  -- The members after the replay, exclusions first.
  unfoldable pub apply_moment_edits : F → ℕ → Text → Store F → Members F
  apply_moment_edits nil now id s =
      replay_pins nil now id s.assets s.edits
        (keep_keys (λ k. not (text_eq k.0 id && excluded id k.1 s.edits)) s.members)

  abbrev pub members_of : Text → Members F → Members F
  members_of id ms = keep (λ x. text_eq x.0.0 id) ms

  abbrev pub taken_extreme : (ℕ → ℕ → ℕ) → List (Text × AssetState) → Members F → Option ℕ
  taken_extreme f assets [] = none
  taken_extreme f assets ((k, m) ∷ ms) =
      joined f (taken_of (lookup k.1 assets)) (taken_extreme f assets ms)

abbrev pub is_cover_member : {F : Type 0} → Text → Option Text → Members F → Bool
is_cover_member id none ms = false
is_cover_member id (some c) ms = is_some (lookup (id, c) ms)

module _ (r : Float64) where
  -- ORDER BY score DESC, asset_id ASC
  abbrev pub before : MemberKey × Member r.F → MemberKey × Member r.F → Bool
  before (k, m) (j, n) = r.lt n.score m.score || (not (r.lt m.score n.score) && text_lt k.1 j.1)

  abbrev pub first_of : MemberKey × Member r.F → Members r.F → MemberKey × Member r.F
  first_of x [] = x
  first_of x (y ∷ ys) = first_of (if before y x then y else x) ys

  -- … LIMIT 1
  abbrev pub pick : Members r.F → Option Text
  pick [] = none
  pick (x ∷ xs) = some (first_of x xs).0.1

  abbrev pub pick_featured : Members r.F → Members r.F → Option Text
  pick_featured [] all = pick all
  pick_featured (x ∷ xs) all = pick (x ∷ xs)

  abbrev pub new_cover : Text → Option Text → Members r.F → Option Text
  new_cover id cover ms =
      if is_cover_member id cover ms
      then cover
      else pick_featured (keep (λ x. x.1.featured) (members_of id ms)) (members_of id ms)

  abbrev pub derived : Bool → ℕ → Text → List (Text × AssetState) → Members r.F → Moment → Moment
  derived had_time_window now id assets ms m = record m {
    asset_count = length (members_of id ms);
    time_from =
        if had_time_window then taken_extreme min assets (members_of id ms) else m.time_from;
    time_to = if had_time_window then taken_extreme max assets (members_of id ms) else m.time_to;
    cover_asset_id = new_cover id m.cover_asset_id ms;
    updated_at = now;
  }

  -- The row has to be there to be read.
  unfoldable pub refresh_moment_derived : Bool → ℕ → Text → Store r.F → Option (Store r.F)
  refresh_moment_derived had_time_window now id s =
      if is_some (lookup id s.moments)
      then some (record s {
        moments = alter id (derived had_time_window now id s.assets s.members) s.moments;
      })
      else none
