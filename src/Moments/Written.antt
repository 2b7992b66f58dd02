-- ===== src/Moments/Written.antt =====
-- The members of a moment after its draft is written.
use nimo_os_photos.Prelude.{
  ℕ, ◌≡◌, refl, ap, ◌∙◌, Bool, true, false, ◌&&◌, ◌||◌, not, List, [], ◌∷◌, Text, text_Eq, pair_Eq,
  pair_eq, text_eq, text_eq_iff, text_eq_refl, text_mem, lookup, lookup-insert, insert, keep_keys,
  lookup-keep_keys, is_some, Float64, arith, inl, inr, Bool-cases, if◌then◌else◌,
}
use nimo_os_photos.Moments.Rows.{
  Member, AssetState, MemberKey, Members, Edits, Store, is_alive, is_pin,
}
use nimo_os_photos.Moments.Derived.{
  pinned, excluded, pinned_alive, insert_new, replay_pins, apply_moment_edits,
}
use nimo_os_photos.Moments.Sync.{
  MomentAsset, MomentDraft, upsert_member, upsert_members, asset_ids, delete_stale, score_zero,
  written,
}

abbrev pub member_in : {F : Type 0} → Text → Text → Members F → Bool
member_in id aid ms = is_some (lookup (id, aid) ms)

module _ {F : Type 0} (id j aid : Text) where
  member-insert :
      (b : Text) (v : Member F) (ms : Members F)
      → member_in j aid (insert (id, b) v ms)
        ≡ ((text_eq id j && text_eq b aid) || member_in j aid ms)
  unfolding pair_eq
  member-insert b v ms = ground (arith, lookup-insert (id, b) (j, aid) v ms)

  same_member :
      (b : Text) (ms : Members F)
      → (text_eq id j && text_eq b aid) ≡ true
      → member_in id b ms ≡ member_in j aid ms
  same_member b ms h =
      ap (λ x. member_in x b ms) ((text_eq_iff id j).0 (ground (arith, h)))
      ∙ ap (λ x. member_in j x ms) ((text_eq_iff b aid).0 (ground (arith, h)))

  member-insert_new :
      (b : Text) (v : Member F) (ms : Members F)
      → member_in j aid (insert_new (id, b) v ms)
        ≡ ((text_eq id j && text_eq b aid) || member_in j aid ms)
  member-insert_new b v ms = elim (Bool-cases (member_in id b ms)) [
    | inl e ↦ rw e (ground (arith, e, same_member b ms))
    | inr e ↦ rw e (member-insert b v ms)
  ]

module _ {F : Type 0} (id j aid : Text) where
  upserted-member :
      (now : ℕ) (xs : List (MomentAsset F)) (ms : Members F)
      → member_in j aid (upsert_members now id xs ms)
        ≡ ((text_eq id j && text_mem aid (asset_ids xs)) || member_in j aid ms)
  unfolding upsert_members text_mem
  upserted-member now [] ms = ground arith
  upserted-member now (a ∷ xs) ms =
      upserted-member now xs (upsert_member now id a ms)
      ∙ rw (member-insert id j aid a.asset_id _ ms) (ground arith)

  replay-step :
      (i b : Text) (c : Bool) (v : Member F) (ms : Members F)
      → member_in j aid (if c then insert_new (i, b) v ms else ms)
        ≡ ((c && text_eq i j && text_eq b aid) || member_in j aid ms)
  replay-step i b true v ms = member-insert_new i j aid b v ms
  replay-step i b false v ms = refl

  -- The rows that the pins of the moment add.
  replayed-member :
      (nil : F) (now : ℕ) (assets : List (Text × AssetState)) (edits : Edits) (ms : Members F)
      → member_in j aid (replay_pins nil now id assets edits ms)
        ≡ ((text_eq id j && pinned id aid edits && is_alive assets aid) || member_in j aid ms)
  unfolding replay_pins
  replayed-member nil now assets [] ms = ground arith
  replayed-member nil now assets (((i, b), e) ∷ edits) ms =
      replayed-member nil now assets edits _
      ∙ rw (replay-step i b (text_eq i id && is_pin e.op && is_alive assets b) _ ms) (
          ground (
            arith,
            text_eq_iff i id,
            text_eq_iff b aid,
            λ (h : i ≡ id). ap (λ x. text_eq x j) h,
            λ (h : b ≡ aid). ap (is_alive assets) h,
          ))

pub member-keep_keys :
    {F : Type 0} (p : MemberKey → Bool) (j aid : Text) (ms : Members F)
    → member_in j aid (keep_keys p ms) ≡ (p (j, aid) && member_in j aid ms)
member-keep_keys p j aid ms = ground (arith, lookup-keep_keys p (j, aid) ms)

-- The members of the moment of a draft, of that and of another moment.
abbrev pub chosen : {F : Type 0} → MomentDraft F → Store F → Text → Text → Bool
chosen d s id aid =
    (text_mem aid (asset_ids d.assets) && not (excluded id aid s.edits)) || pinned_alive s id aid

module _ (r : Float64) (now : ℕ) (d : MomentDraft r.F) (s : Store r.F) (aid : Text) where
  abbrev upserts : Members r.F
  upserts = upsert_members now d.id d.assets s.members

  abbrev not_excluded : MemberKey → Bool
  not_excluded k = not (text_eq k.0 d.id && excluded d.id k.1 s.edits)

  parts :
      (j : Text)
      → member_in j aid (written r now d s).members ≡ (
          (text_eq d.id j && pinned d.id aid s.edits && is_alive s.assets aid)
          || (not_excluded (j, aid)
              && ((not (text_eq j d.id)
                    || text_mem aid (asset_ids d.assets)
                    || pinned_alive s d.id aid)
                  && ((text_eq d.id j && text_mem aid (asset_ids d.assets))
                      || member_in j aid s.members))))
  unfolding apply_moment_edits
  parts j =
      replayed-member d.id j aid (score_zero r) now s.assets s.edits
        (keep_keys not_excluded (delete_stale d s upserts))
      ∙ rw
          (
            member-keep_keys not_excluded j aid (delete_stale d s upserts),
            member-keep_keys
                (λ k.
                  not (text_eq k.0 d.id)
                  || text_mem k.1 (asset_ids d.assets)
                  || pinned_alive s d.id k.1)
                j aid upserts,
            upserted-member d.id j aid now d.assets s.members,
          )
          refl

  pub own-member : member_in d.id aid (written r now d s).members ≡ chosen d s d.id aid
  own-member = parts d.id ∙ rw (text_eq_refl d.id) (ground arith)

  pub other-member :
      (j : Text)
      → text_eq d.id j ≡ false
      → member_in j aid (written r now d s).members ≡ member_in j aid s.members
  other-member j h = parts j ∙ ground (arith, h, text_eq_iff d.id j, text_eq_iff j d.id)
