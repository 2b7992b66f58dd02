-- ===== src/Moments/Marks.antt =====
-- What the user sees of a moment over synchronisations: its title, its place in the order and whether it
-- is hidden.
use nimo_os_photos.Prelude.{
  ℕ, ◌≡◌, refl, ap, sym, subst, ◌∙◌, Bool, true, false, not, Option, none, some, List, [], ◌∷◌,
  Text, text_Eq, pair_Eq, text_eq, text_eq_iff, lookup, lookup-insert, lookup-alter,
  lookup-keep_keys, is_some, or_else, Float64, >>=-eq-some, inl, inr, Bool-cases, if◌then◌else◌,
}
use mathlib.Core.Option as Option
use mathlib.Core.Option.{some_inj}
use nimo_os_photos.Moments.Rows.{Moment, Store}
use nimo_os_photos.Moments.Derived.{has_edits, derived, refresh_moment_derived}
use nimo_os_photos.Moments.Sync.{
  MomentDraft, SyncFaults, upserted, draft_ids, old_moment, written, sync_draft, sync_drafts,
  sync_recipe_moments,
}
use nimo_os_photos.Moments.Membership.{last_draft, sync-done, drafted, kept_moment}

-- recipe_key, title, named_by_llm, sort_order, hidden and created_at.
abbrev pub Shown : Type 0
Shown = Text × Text × Bool × Option ℕ × Bool × ℕ

abbrev pub shown : Moment → Shown
shown m = (m.recipe_key, m.title, m.named_by_llm, m.sort_order, m.hidden, m.created_at)

abbrev pub shown_at : {F : Type 0} → Text → Store F → Option Shown
shown_at id s = Option.map shown (lookup id s.moments)

-- A draft names and creates a moment that is not there. Of one that is there it sets the recipe, and the
-- title if that was not given by the language model.
abbrev pub redrafted : {F : Type 0} → ℕ → MomentDraft F → Option Shown → Shown
redrafted now d none = (d.recipe_key, d.title, false, none, false, now)
redrafted now d (some (recipe, title, named, order, hidden, created)) =
    (d.recipe_key, if named then title else d.title, named, order, hidden, created)

redrafted_twice :
    {F : Type 0} (now : ℕ) (d e : MomentDraft F) (x : Option Shown)
    → redrafted now d (some (redrafted now e x)) ≡ redrafted now d x
redrafted_twice now d e none = refl
redrafted_twice now d e (some (recipe, title, true, order, hidden, created)) = refl
redrafted_twice now d e (some (recipe, title, false, order, hidden, created)) = refl

shown-upserted :
    {F : Type 0} (now : ℕ) (d : MomentDraft F) (o : Option Moment)
    → shown (upserted now d o) ≡ redrafted now d (Option.map shown o)
shown-upserted now d none = refl
shown-upserted now d (some m) = refl

abbrev pub shown_after : {F : Type 0} → ℕ → Option (MomentDraft F) → Option Shown → Option Shown
shown_after now none x = x
shown_after now (some d) x = some (redrafted now d x)

module _ (r : Float64) (f : SyncFaults) (now later : ℕ) (id : Text) where
  written-shown :
      (d : MomentDraft r.F) (s : Store r.F)
      → shown_at id (written r now d s)
        ≡ shown_after now (if text_eq d.id id then some d else none) (shown_at id s)
  written-shown d s =
      ap (Option.map shown)
        (lookup-insert d.id id (upserted now d (lookup d.id s.moments)) s.moments)
      ∙ elim (Bool-cases (text_eq d.id id)) [
        | inl e ↦ rw e (
            ap some (
              subst
                (λ x. shown (upserted now d (lookup x s.moments)) ≡ redrafted now d (shown_at id s))
                (sym ((text_eq_iff d.id id).0 e)) (shown-upserted now d (lookup id s.moments))))
        | inr e ↦ rw e refl
      ]

  refresh-shown :
      (b : Bool) (mid : Text) (s s' : Store r.F)
      → refresh_moment_derived r b later mid s ≡ some s'
      → shown_at id s' ≡ shown_at id s
  unfolding refresh_moment_derived
  refresh-shown b mid s s' = elim (Bool-cases (is_some (lookup mid s.moments))) [
    | inl e ↦ rw e (λ h.
        subst (λ x. shown_at id x ≡ shown_at id s) (some_inj.0 h)
          (ap (Option.map shown)
              (lookup-alter mid id (derived r b later mid s.assets s.members) s.moments)
            ∙ same (text_eq mid id) (lookup id s.moments)))
    | inr e ↦ rw e (λ h. absurd (cc))
  ]
    where
      same :
          (c : Bool) (o : Option Moment)
          → Option.map shown
              (if c then Option.map (derived r b later mid s.assets s.members) o else o)
            ≡ Option.map shown o
      same true none = refl
      same true (some m) = refl
      same false o = refl

  sync_draft-shown :
      (d : MomentDraft r.F) (s s' : Store r.F)
      → sync_draft r f now later d s ≡ some s'
      → shown_at id s' ≡ shown_after now (if text_eq d.id id then some d else none) (shown_at id s)
  unfolding sync_draft
  sync_draft-shown d s s' = elim (Bool-cases (f.draft d.id)) [
    | inl e ↦ rw e (λ h. absurd (cc))
    | inr e ↦ rw e (elim (Bool-cases (has_edits d.id s.edits)) [
      | inl b ↦ rw b (λ h.
          refresh-shown (is_some d.time_from) d.id (written r now d s) s' h ∙ written-shown d s)
      | inr b ↦ rw b (λ h. ap (shown_at id) (sym (some_inj.0 h)) ∙ written-shown d s)
    ])
  ]

  shown_twice :
      (o p : Option (MomentDraft r.F)) (x : Option Shown)
      → shown_after now o (shown_after now p x) ≡ shown_after now (or_else o p) x
  shown_twice none p x = refl
  shown_twice (some d) none x = refl
  shown_twice (some d) (some e) x = ap some (redrafted_twice now d e x)

  pub sync_drafts-shown :
      (ds : List (MomentDraft r.F)) (s s' : Store r.F)
      → sync_drafts r f now later ds s ≡ some s'
      → shown_at id s' ≡ shown_after now (last_draft id ds) (shown_at id s)
  unfolding sync_drafts
  sync_drafts-shown [] s s' h = ap (shown_at id) (sym (some_inj.0 h))
  sync_drafts-shown (d ∷ ds) s s' h =
      let (z, a, b) = >>=-eq-some (sync_draft r f now later d s) (sync_drafts r f now later ds) h in
      sync_drafts-shown ds z s' b
      ∙ ap (shown_after now (last_draft id ds)) (sync_draft-shown d s z a)
      ∙ shown_twice (last_draft id ds) (if text_eq d.id id then some d else none) (shown_at id s)

  -- After a synchronisation that succeeds, the moment of a draft has the title that the language model
  -- gave it before, or else that of its last draft, and its place in the order, its hiding and its
  -- creation time are as before, or those of a new moment if it was not there.
  pub sync_keeps_marks :
      (recipe : Text) (ds : List (MomentDraft r.F)) (d : MomentDraft r.F) (s : Store r.F)
      → (sync_recipe_moments r f now later recipe ds s).1 ≡ true
      → last_draft id ds ≡ some d
      → shown_at id (sync_recipe_moments r f now later recipe ds s).0
        ≡ some (redrafted now d (shown_at id s))
  sync_keeps_marks recipe ds d s h e =
      let (z, a, b) = sync-done r f now later id id recipe ds s h in
      ap (shown_at id) b
      ∙ ap (Option.map shown) (
          lookup-keep_keys (λ j. not (old_moment recipe (draft_ids ds) (lookup j z.moments) j)) id
            z.moments)
      ∙ rw
          (kept_moment r f now later id id recipe ds (lookup id z.moments)
            (drafted r f now later id id ds d e))
          (sync_drafts-shown ds s z a ∙ rw e refl)
