-- ===== src/Moments/Membership.antt =====
-- The members of a moment after SyncRecipeMoments.
use nimo_os_photos.Prelude.{
  ℕ, ◌≡◌, refl, ap, subst, ◌∙◌, Bool, true, false, ◌||◌, not, Option, none, some, List, [], ◌∷◌,
  Text, text_Eq, pair_Eq, text_eq, text_eq_iff, text_mem, lookup, is_some, or_else, Float64, ◌>>=◌,
  >>=-eq-some, arith, inl, inr, Bool-cases, if◌then◌else◌,
}
use mathlib.Core.Option.{some_inj}
use nimo_os_photos.Moments.Rows.{Moment, Store}
use nimo_os_photos.Moments.Derived.{has_edits, refresh_moment_derived}
use nimo_os_photos.Moments.Sync.{
  MomentDraft, SyncFaults, draft_ids, old_moment, written, sync_draft, sync_drafts, delete_old,
  sync_body, ended, sync_recipe_moments,
}
use nimo_os_photos.Moments.Written.{member_in, chosen, member-keep_keys, own-member, other-member}

-- The draft of that id that is written last.
abbrev pub last_draft : {F : Type 0} → Text → List (MomentDraft F) → Option (MomentDraft F)
last_draft id [] = none
last_draft id (d ∷ ds) = or_else (last_draft id ds) (if text_eq d.id id then some d else none)

-- Two stores with the same edits and assets.
abbrev pub SameEdits : {F : Type 0} → Store F → Store F → Type 0
SameEdits s s' = (s'.edits ≡ s.edits) × (s'.assets ≡ s.assets)

-- A choice made once, or what was there.
abbrev pub now_in : {F : Type 0} → Option (MomentDraft F) → Store F → Text → Text → Bool
now_in none s id aid = member_in id aid s.members
now_in (some d) s id aid = chosen d s id aid

module _ (r : Float64) (f : SyncFaults) (now later : ℕ) (id aid : Text) where
  -- The derived columns are no members.
  refresh-members :
      (b : Bool) (mid : Text) (s s' : Store r.F)
      → refresh_moment_derived r b later mid s ≡ some s'
      → (s'.members ≡ s.members) × SameEdits s s'
  unfolding refresh_moment_derived
  refresh-members b mid s s' = elim (Bool-cases (is_some (lookup mid s.moments))) [
    | inl e ↦ rw e (λ h.
        subst (λ x. (x.members ≡ s.members) × SameEdits s x) (some_inj.0 h) (refl, (refl, refl)))
    | inr e ↦ rw e (λ h. absurd (cc))
  ]

  pub sync_draft-members :
      (d : MomentDraft r.F) (s s' : Store r.F)
      → sync_draft r f now later d s ≡ some s'
      → (s'.members ≡ (written r now d s).members) × SameEdits s s'
  unfolding sync_draft
  sync_draft-members d s s' = elim (Bool-cases (f.draft d.id)) [
    | inl e ↦ rw e (λ h. absurd (cc))
    | inr e ↦ rw e (elim (Bool-cases (has_edits d.id s.edits)) [
      | inl b ↦ rw b (refresh-members (is_some d.time_from) d.id (written r now d s) s')
      | inr b ↦ rw b (λ h.
          subst (λ x. (x.members ≡ (written r now d s).members) × SameEdits s x) (some_inj.0 h)
            (refl, (refl, refl)))
    ])
  ]

  step-member :
      (d : MomentDraft r.F) (s s' : Store r.F)
      → sync_draft r f now later d s ≡ some s'
      → member_in id aid s'.members ≡ now_in (if text_eq d.id id then some d else none) s id aid
  step-member d s s' h =
      let (e, _) = sync_draft-members d s s' h in
      ap (member_in id aid) e ∙ elim (Bool-cases (text_eq d.id id)) [
        | inl b ↦ rw b (
            subst (λ x. member_in x aid (written r now d s).members ≡ chosen d s x aid)
              ((text_eq_iff d.id id).0 b) (own-member r now d s aid))
        | inr b ↦ rw b (other-member r now d s aid id b)
      ]

  now_in-later :
      (o p : Option (MomentDraft r.F)) (s s' : Store r.F)
      → SameEdits s s'
      → member_in id aid s'.members ≡ now_in p s id aid
      → now_in o s' id aid ≡ now_in (or_else o p) s id aid
  now_in-later none p s s' same h = h
  now_in-later (some d) p s s' (e, a) h = rw (e, a) refl

  pub sync_drafts-members :
      (ds : List (MomentDraft r.F)) (s s' : Store r.F)
      → sync_drafts r f now later ds s ≡ some s'
      → (member_in id aid s'.members ≡ now_in (last_draft id ds) s id aid) × SameEdits s s'
  unfolding sync_drafts
  sync_drafts-members [] s s' h =
      subst (λ x. (member_in id aid x.members ≡ member_in id aid s.members) × SameEdits s x)
        (some_inj.0 h) (refl, (refl, refl))
  sync_drafts-members (d ∷ ds) s s' h =
      let (z, a, b) = >>=-eq-some (sync_draft r f now later d s) (sync_drafts r f now later ds) h in
      let (members, (edits, assets)) = sync_drafts-members ds z s' b in
      let (_, (edits', assets')) = sync_draft-members d s z a in
      (
        members ∙ now_in-later (last_draft id ds) _ s z (edits', assets') (step-member d s z a),
        (edits ∙ edits', assets ∙ assets'),
      )

  pub drafted :
      (ds : List (MomentDraft r.F)) (d : MomentDraft r.F)
      → last_draft id ds ≡ some d
      → text_mem id (draft_ids ds) ≡ true
  unfolding text_mem
  drafted [] d h = absurd (cc)
  drafted (x ∷ ds) d h = elim (Bool-cases (text_eq x.id id)) [
    | inl e ↦ rw e refl
    | inr e ↦ rw e (
        drafted ds d (
          only (last_draft id ds)
            (subst (λ b. or_else (last_draft id ds) (if b then some x else none) ≡ some d) e h)))
  ]
    where
      only : (o : Option (MomentDraft r.F)) → or_else o none ≡ some d → o ≡ some d
      only none h = h
      only (some y) h = h

  pub kept_moment :
      (recipe : Text) (ds : List (MomentDraft r.F)) (o : Option Moment)
      → text_mem id (draft_ids ds) ≡ true
      → old_moment recipe (draft_ids ds) o id ≡ false
  kept_moment recipe ds none h = refl
  kept_moment recipe ds (some m) h = ground (arith, h)

  -- A call that succeeds, taken apart.
  pub sync-done :
      (recipe : Text) (ds : List (MomentDraft r.F)) (s : Store r.F)
      → (sync_recipe_moments r f now later recipe ds s).1 ≡ true
      → (z : Store r.F) × (sync_drafts r f now later ds s ≡ some z)
        × ((sync_recipe_moments r f now later recipe ds s).0 ≡ delete_old r recipe ds z)
  unfolding sync_recipe_moments
  sync-done recipe ds s = of_begin f.begin
    where
      of_body :
          (o : Option (Store r.F))
          → sync_drafts r f now later ds s ≡ o
          → (ended r s
              (o >>= λ z. if f.delete || f.commit then none else some (delete_old r recipe ds z))).1
            ≡ true
          → (z : Store r.F) × (sync_drafts r f now later ds s ≡ some z)
            × ((ended r s (
                  o >>= λ z.
                  if f.delete || f.commit then none else some (delete_old r recipe ds z))).0
                ≡ delete_old r recipe ds z)
      of_body none e = λ h. absurd (cc)
      of_body (some z) e = elim (Bool-cases (f.delete || f.commit)) [
        | inl b ↦ rw b (λ h. absurd (cc))
        | inr b ↦ rw b (λ h. (z, e, refl))
      ]

      of_begin :
          (b : Bool)
          → (ended r s (if b then none else sync_body r f now later recipe ds s)).1 ≡ true
          → (z : Store r.F) × (sync_drafts r f now later ds s ≡ some z)
            × ((ended r s (if b then none else sync_body r f now later recipe ds s)).0
                ≡ delete_old r recipe ds z)
      of_begin true = λ h. absurd (cc)
      of_begin false = of_body (sync_drafts r f now later ds s) refl

  -- After a synchronisation that succeeds, the members of the moment of a draft are those of its last
  -- draft that the user has not excluded, and the assets that the user has pinned and that are alive,
  -- whatever the members were before.
  pub sync_members :
      (recipe : Text) (ds : List (MomentDraft r.F)) (d : MomentDraft r.F) (s : Store r.F)
      → (sync_recipe_moments r f now later recipe ds s).1 ≡ true
      → last_draft id ds ≡ some d
      → member_in id aid (sync_recipe_moments r f now later recipe ds s).0.members
        ≡ chosen d s id aid
  sync_members recipe ds d s h e =
      let (z, a, b) = sync-done recipe ds s h in
      let (members, same) = sync_drafts-members ds s z a in
      ap (λ x. member_in id aid x.members) b
      ∙ member-keep_keys (λ k. not (old_moment recipe (draft_ids ds) (lookup k.0 z.moments) k.0)) id
          aid z.members
      ∙ rw (kept_moment recipe ds (lookup id z.moments) (drafted ds d e)) (members ∙ rw e refl)
