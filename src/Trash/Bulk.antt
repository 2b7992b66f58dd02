-- ===== src/Trash/Bulk.antt =====
-- EmptyTrash, RestoreAllTrash and PurgeExpired of service/trash.go: the loops over the trashed ids.
use nimo_os_photos.Prelude.{
  ℕ, zero, suc, ◌+◌, ◌*◌, ◌≡◌, refl, ap, sym, ◌∙◌, Bool, true, false, ◌&&◌, ◌||◌, not, none, some,
  List, [], ◌∷◌, map, Text, text_Eq, text_eq, text_eq→≡, text_mem, keep, ltb, arith, Bool-cases,
  inl, inr, ℤ, pos, negsuc,
}
use nimo_os_photos.Assets.{AssetRow, Table, row_of}
use nimo_os_photos.Trash.{
  TrashService, Faults, World, Outcome, ok, not_found, failed, is_trashed, restore_asset,
}
use nimo_os_photos.Trash.Purge.{purge_asset}
use nimo_os_photos.Trash.Purge.Rows.{Within, Within-trans, purge_asset-Within, purge_asset-gone}

-- The rows that trashIDs selects, with its extra condition.
abbrev pub listed : (AssetRow → Bool) → AssetRow → Bool
listed q r = is_trashed r && not r.is_live_photo_video && q r

unfoldable pub trash_ids : (AssetRow → Bool) → Table → List Text
trash_ids q t = map (λ r. r.id) (keep (listed q) t)

-- A loop that stops at the first error.
next : (World → World × Outcome) → World × Outcome → World × Outcome
next k (w, ok) = k w
next k (w, not_found) = (w, not_found)
next k (w, failed) = (w, failed)

for_all : (Text → World → World × Outcome) → List Text → World → World × Outcome
unfolding next
for_all op [] w = (w, ok)
for_all op (id ∷ ids) w = next (for_all op ids) (op id w)

unfoldable pub empty_trash : TrashService → Faults → World → World × Outcome
unfolding for_all
empty_trash s f w = for_all (purge_asset s f) (trash_ids (λ r. true) w.table) w

pub restore_all_trash : TrashService → Faults → World → World × Outcome
restore_all_trash s f w = for_all (restore_asset s f) (trash_ids (λ r. true) w.table) w

unfoldable pub retention : ℤ → ℕ
retention (pos zero) = 30
retention (pos (suc n)) = suc n
retention (negsuc n) = 30

-- deleted_at < now - days, in seconds
abbrev pub older_than : ℕ → ℕ → AssetRow → Bool
older_than now days r = elim r.deleted_at [ none ↦ false | some d ↦ ltb (d + days * 86400) now ]

unfoldable pub purge_expired : TrashService → Faults → ℕ → ℤ → World → World × Outcome
unfolding for_all
purge_expired s f now days w =
    for_all (purge_asset s f) (trash_ids (older_than now (retention days)) w.table) w

-- What a loop that succeeds did to the table: no row came, and the rows of the ids are gone.
abbrev Purged : List Text → World → World × Outcome → Type 0
Purged ids w (w', res) =
    Within w'.table w.table
    × ((j : Text) → res ≡ ok → text_mem j ids ≡ true → row_of j w'.table ≡ none)

Purged-next :
    (s : TrashService) (f : Faults) (id : Text) (ids : List Text) (w w1 : World) (o : Outcome)
    → Within w1.table w.table
    → (o ≡ ok → row_of id w1.table ≡ none)
    → Purged ids w1 (for_all (purge_asset s f) ids w1)
    → Purged (id ∷ ids) w (next (for_all (purge_asset s f) ids) (w1, o))
unfolding next text_mem
Purged-next s f id ids w w1 not_found h g p = (h, λ j e m. absurd (cc e))
Purged-next s f id ids w w1 failed h g p = (h, λ j e m. absurd (cc e))
Purged-next s f id ids w w1 ok h g p = (Within-trans _ _ _ p.0 h, gone)
  where
    w2 : World
    w2 = (for_all (purge_asset s f) ids w1).0

    gone :
        (j : Text)
        → (for_all (purge_asset s f) ids w1).1 ≡ ok
        → text_eq id j || text_mem j ids ≡ true
        → row_of j w2.table ≡ none
    gone j e m = elim (Bool-cases (text_mem j ids)) [
      | inl q ↦ p.1 j e q
      | inr q ↦ elim (p.0 j) [
        | inl n ↦ n
        | inr k ↦ k ∙ ap (λ i. row_of i w1.table) (sym (text_eq→≡ id j (ground arith))) ∙ g refl
      ]
    ]

Purged-for_all :
    (s : TrashService) (f : Faults) (ids : List Text) (w : World)
    → Purged ids w (for_all (purge_asset s f) ids w)
unfolding for_all text_mem
Purged-for_all s f [] w = ((λ j. inr refl), λ j h m. absurd (cc m))
Purged-for_all s f (id ∷ ids) w =
    Purged-next s f id ids w (purge_asset s f id w).0 (purge_asset s f id w).1
      (purge_asset-Within s f id w) (purge_asset-gone s f id w)
      (Purged-for_all s f ids (purge_asset s f id w).0)

mem-trash_ids :
    (q : AssetRow → Bool) (j : Text) (t : Table) (r : AssetRow)
    → row_of j t ≡ some r
    → listed q r ≡ true
    → text_mem j (trash_ids q t) ≡ true
unfolding trash_ids text_mem
mem-trash_ids q j [] r h l = absurd (cc h)
mem-trash_ids q j (x ∷ t) r h l = elim (Bool-cases (text_eq x.id j)) [
  | inl e ↦
      let same : x ≡ r = ap (λ o. elim o [ none ↦ x | some y ↦ y ]) (rw e at h) in
      rw (ap (listed q) same ∙ l, e)
  | inr e ↦ ground (arith, mem-trash_ids q j t r (rw e at h) l)
]

-- A row that PurgeExpired leaves, where it reports no error, is one that its query does not select: it
-- is not in the trash, is a Live Photo's video, or was not deleted more than the retention days ago
-- (30 for a number that is not positive). It was in the table before.
purge_expired_leaves :
    (s : TrashService) (f : Faults) (now : ℕ) (days : ℤ) (j : Text) (r : AssetRow) (w : World)
    → (purge_expired s f now days w).1 ≡ ok
    → row_of j (purge_expired s f now days w).0.table ≡ some r
    → (row_of j w.table ≡ some r) × (listed (older_than now (retention days)) r ≡ false)
unfolding purge_expired
purge_expired_leaves s f now days j r w h l =
    let q = older_than now (retention days) in
    let p = Purged-for_all s f (trash_ids q w.table) w in
    elim (p.0 j) [
      | inl n ↦ absurd (cc (n, l))
      | inr e ↦ elim (Bool-cases (listed q r)) [
        | inl k ↦ absurd (cc (p.1 j h (mem-trash_ids q j w.table r (sym e ∙ l) k), l))
        | inr k ↦ (sym e ∙ l, k)
      ]
    ]

-- A row that EmptyTrash leaves, where it reports no error, was there before and is not in the trash,
-- unless it is a Live Photo's video.
empty_trash_leaves :
    (s : TrashService) (f : Faults) (j : Text) (r : AssetRow) (w : World)
    → (empty_trash s f w).1 ≡ ok
    → row_of j (empty_trash s f w).0.table ≡ some r
    → (row_of j w.table ≡ some r) × (is_trashed r && not r.is_live_photo_video ≡ false)
unfolding empty_trash
empty_trash_leaves s f j r w h l =
    let p = Purged-for_all s f (trash_ids (λ x. true) w.table) w in
    elim (p.0 j) [
      | inl n ↦ absurd (cc (n, l))
      | inr e ↦ elim (Bool-cases (listed (λ x. true) r)) [
        | inl k ↦ absurd (cc (p.1 j h (mem-trash_ids (λ x. true) j w.table r (sym e ∙ l) k), l))
        | inr k ↦ (sym e ∙ l, ground (arith, k))
      ]
    ]
