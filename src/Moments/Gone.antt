-- ===== src/Moments/Gone.antt =====
-- A moment that a synchronisation does not produce.
use nimo_os_photos.Prelude.{
  ℕ, ◌≡◌, refl, ap, sym, subst, ◌∙◌, Bool, true, false, ◌||◌, not, Option, none, some, List, [],
  ◌∷◌, Text, text_Eq, pair_Eq, text_eq, text_eq_iff, text_mem, lookup, keep_keys, lookup-keep_keys,
  Float64, arith, inl, inr, Bool-cases,
}
use mathlib.Core.Option as Option
use mathlib.Core.Option.{some_inj}
use nimo_os_photos.Moments.Rows.{Moment, MemberKey, Edits, Store}
use nimo_os_photos.Moments.Derived.{has_edits}
use nimo_os_photos.Moments.Sync.{
  MomentDraft, SyncFaults, draft_ids, old_moment, sync_recipe_moments,
}
use nimo_os_photos.Moments.Membership.{last_draft, sync_drafts-members, sync-done}
use nimo_os_photos.Moments.Marks.{
  Shown, shown, shown_at, redrafted, sync_drafts-shown, sync_keeps_marks,
}

-- A moment that is gone, with its edits.
abbrev pub Gone : {F : Type 0} → Text → Store F → Type 0
Gone id s = (shown_at id s ≡ none) × (has_edits id s.edits ≡ false)

edits-keep_keys :
    (p : MemberKey → Bool) (id : Text) (edits : Edits)
    → has_edits id edits ≡ false
    → has_edits id (keep_keys p edits) ≡ false
unfolding keep_keys
edits-keep_keys p id [] h = refl
edits-keep_keys p id ((k, e) ∷ edits) h = ground (arith, h, edits-keep_keys p id edits)

edits-gone :
    (gone : Text → Bool) (id : Text) (edits : Edits)
    → gone id ≡ true
    → has_edits id (keep_keys (λ k. not (gone k.0)) edits) ≡ false
unfolding keep_keys
edits-gone gone id [] h = refl
edits-gone gone id (((i, a), e) ∷ edits) h =
    ground (arith, h, text_eq_iff i id, λ (q : i ≡ id). ap gone q, edits-gone gone id edits h)

undrafted :
    {F : Type 0} (id : Text) (ds : List (MomentDraft F))
    → text_mem id (draft_ids ds) ≡ false
    → last_draft id ds ≡ none
unfolding text_mem
undrafted id [] h = refl
undrafted id (d ∷ ds) h = elim (Bool-cases (text_eq d.id id)) [
  | inl e ↦ absurd (
      clash (text_mem id (draft_ids ds))
        (subst (λ b. (b || text_mem id (draft_ids ds)) ≡ false) e h))
  | inr e ↦
      rw (e, undrafted id ds (subst (λ b. (b || text_mem id (draft_ids ds)) ≡ false) e h)) refl
]
  where
    clash : (b : Bool) → (true || b) ≡ false → ⊥
    clash b h = cc

old_by_recipe :
    (recipe : Text) (ids : List Text) (id : Text) (o : Option Moment) (x : Shown)
    → Option.map shown o ≡ some x
    → x.0 ≡ recipe
    → text_mem id ids ≡ false
    → old_moment recipe ids o id ≡ true
old_by_recipe recipe ids id none x h e k = absurd (cc)
old_by_recipe recipe ids id (some m) x h e k =
    let same : m.recipe_key ≡ recipe = ap (λ (y : Shown). y.0) (some_inj.0 h) ∙ e in
    rw (k, (text_eq_iff m.recipe_key recipe).1 same) refl

module _ (r : Float64) (f : SyncFaults) (now later : ℕ) (id : Text) where
  -- A synchronisation without a draft of a moment of the recipe.
  dropped-Gone :
      (recipe : Text) (ds : List (MomentDraft r.F)) (x : Shown) (s : Store r.F)
      → (sync_recipe_moments r f now later recipe ds s).1 ≡ true
      → shown_at id s ≡ some x
      → x.0 ≡ recipe
      → text_mem id (draft_ids ds) ≡ false
      → Gone id (sync_recipe_moments r f now later recipe ds s).0
  dropped-Gone recipe ds x s h e k l =
      let (z, a, b) = sync-done r f now later id id recipe ds s h in
      let there : shown_at id z ≡ some x =
        sync_drafts-shown r f now later id ds s z a ∙ rw (undrafted id ds l) e in
      let old : old_moment recipe (draft_ids ds) (lookup id z.moments) id ≡ true =
        old_by_recipe recipe (draft_ids ds) id (lookup id z.moments) x there k l in
      subst (Gone id) (sym b) (
        ap (Option.map shown) (
              lookup-keep_keys (λ j. not (old_moment recipe (draft_ids ds) (lookup j z.moments) j))
                id z.moments)
            ∙ rw old refl,
        edits-gone (λ j. old_moment recipe (draft_ids ds) (lookup j z.moments) j) id z.edits old,
      )

  still_unedited :
      (recipe : Text) (ds : List (MomentDraft r.F)) (s : Store r.F)
      → (sync_recipe_moments r f now later recipe ds s).1 ≡ true
      → has_edits id s.edits ≡ false
      → has_edits id (sync_recipe_moments r f now later recipe ds s).0.edits ≡ false
  still_unedited recipe ds s h e =
      let (z, a, b) = sync-done r f now later id id recipe ds s h in
      let (_, (edits, _)) = sync_drafts-members r f now later id id ds s z a in
      ap (λ x. has_edits id x.edits) b
      ∙ edits-keep_keys (λ k. not (old_moment recipe (draft_ids ds) (lookup k.0 z.moments) k.0)) id
          z.edits (ap (has_edits id) edits ∙ e)

-- A moment of a recipe that one synchronisation has no draft of, and the next one has: it is new, not
-- hidden, not ordered and with the title of its draft, and the user's edits of its members are gone.
pub hidden_once_again :
    (r : Float64) (f g : SyncFaults) (now later now' later' : ℕ) (id recipe : Text)
    (ds es : List (MomentDraft r.F)) (d : MomentDraft r.F) (x : Shown) (s s' s'' : Store r.F)
    → shown_at id s ≡ some x
    → x.0 ≡ recipe
    → text_mem id (draft_ids ds) ≡ false
    → last_draft id es ≡ some d
    → sync_recipe_moments r f now later recipe ds s ≡ (s', true)
    → sync_recipe_moments r g now' later' recipe es s' ≡ (s'', true)
    → (shown_at id s'' ≡ some (d.recipe_key, d.title, false, none, false, now'))
      × (has_edits id s''.edits ≡ false)
hidden_once_again r f g now later now' later' id recipe ds es d x s s' s'' e k l last h h' =
    let (gone, unedited) =
      subst (λ (y : Store r.F × Bool). Gone id y.0) h
        (dropped-Gone r f now later id recipe ds x s (ap (λ (y : Store r.F × Bool). y.1) h) e k
          l) in
    let done : (sync_recipe_moments r g now' later' recipe es s').1 ≡ true =
      ap (λ (y : Store r.F × Bool). y.1) h' in
    subst
      (λ (y : Store r.F × Bool).
        (shown_at id y.0 ≡ some (d.recipe_key, d.title, false, none, false, now'))
        × (has_edits id y.0.edits ≡ false))
      h'
      (
        sync_keeps_marks r g now' later' id recipe es d s' done last
            ∙ ap (λ o. some (redrafted now' d o)) gone,
        still_unedited r g now' later' id recipe es s' done unedited,
      )
