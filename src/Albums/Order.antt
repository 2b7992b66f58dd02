-- ===== src/Albums/Order.antt =====
-- The positions that ReorderAssets and BatchAddAssets give to the members of an album.
use nimo_os_photos.Prelude.{
  or_else, ℕ, suc, ◌≡◌, ◌≢◌, refl, ap, sym, ◌∙◌, Bool, true, false, ◌&&◌, ◌||◌, not, Option, none,
  some, List, [], ◌∷◌, Text, text_Eq, text_eq, pair_Eq, pair_eq, pair_eq_iff, text_eq→≡,
  text_eq_refl, text_mem, lookup, lookup-insert, is_some, any, length, arith, if◌then◌else◌,
  Bool-cases, inl, inr, ◌⊎◌, ◌==◌,
}
use nimo_os_photos.Albums.{
  Albums, MemberKey, ok, not_found, foreign_key_refused, next_position, insert_or_ignore,
  insert_all, batch_add_assets, distinct, members_of, set_position, set_positions, reorder_assets,
}

lookup-set_position :
    (k j : MemberKey) (pos : ℕ) (ms : List (MemberKey × ℕ))
    → lookup j (set_position k pos ms)
      ≡ (if pair_eq k j && is_some (lookup k ms) then some pos else lookup j ms)
unfolding set_position
lookup-set_position k j pos ms = ground (arith, lookup-insert k j pos ms)

-- The place of an id in a list, counted from a number.
abbrev pub place : Text → ℕ → List Text → Option ℕ
place id i [] = none
place id i (x ∷ xs) = let later = place id (suc i) xs in if text_eq x id then some i else later

place-mem : (id : Text) (i : ℕ) (xs : List Text) → text_mem id xs ≡ false → place id i xs ≡ none
unfolding text_mem
place-mem id i [] h = refl
place-mem id i (x ∷ xs) h = ground (arith, place-mem id (suc i) xs)

is_some-set_position :
    (k j : MemberKey) (pos : ℕ) (ms : List (MemberKey × ℕ))
    → is_some (lookup j (set_position k pos ms)) ≡ is_some (lookup j ms)
is_some-set_position k j pos ms = elim (Bool-cases (pair_eq k j)) [
  | inl e ↦
      let same : k ≡ j = (pair_eq_iff k j).0 e in
      ap is_some (lookup-set_position k j pos ms) ∙ rw (e, same) (ground arith)
  | inr e ↦ ap is_some (lookup-set_position k j pos ms) ∙ rw e
]

lookup-set_positions :
    (album id : Text) (i : ℕ) (ids : List Text) (ms : List (MemberKey × ℕ))
    → distinct ids ≡ true
    → is_some (lookup (album, id) ms) ≡ true
    → lookup (album, id) (set_positions album i ids ms)
      ≡ or_else (place id i ids) (lookup (album, id) ms)
unfolding set_positions distinct
lookup-set_positions album id i [] ms d h = refl
lookup-set_positions album id i (x ∷ xs) ms d h =
    lookup-set_positions album id (suc i) xs ms' (ground arith)
      (is_some-set_position (album, x) (album, id) i ms ∙ h)
    ∙ elim (Bool-cases (text_eq x id)) [
      | inl e ↦
          let same : x ≡ id = text_eq→≡ x id e in
          rw (place-mem id (suc i) xs (ground (arith, ap (λ y. text_mem y xs) same)), e)
            (lookup-set_position (album, x) (album, id) i ms
              ∙ (unfold pair_eq in rw (text_eq_refl album, e, same, h)))
      | inr e ↦ rw e (
          ap (or_else (place id (suc i) xs)) (
            lookup-set_position (album, x) (album, id) i ms
            ∙ (unfold pair_eq in rw (text_eq_refl album, e))))
    ]
  where
    ms' : List (MemberKey × ℕ)
    ms' = set_position (album, x) i ms

lookup-set_positions-other :
    (album a id : Text) (i : ℕ) (ids : List Text) (ms : List (MemberKey × ℕ))
    → text_eq album a ≡ false
    → lookup (a, id) (set_positions album i ids ms) ≡ lookup (a, id) ms
unfolding set_positions
lookup-set_positions-other album a id i [] ms h = refl
lookup-set_positions-other album a id i (x ∷ xs) ms h =
    lookup-set_positions-other album a id (suc i) xs (set_position (album, x) i ms) h
    ∙ lookup-set_position (album, x) (a, id) i ms
    ∙ (unfold pair_eq in rw h)

mem-members_of :
    (album id : Text) (ms : List (MemberKey × ℕ))
    → text_mem id (members_of album ms) ≡ is_some (lookup (album, id) ms)
unfolding members_of lookup text_mem pair_eq
mem-members_of album id [] = refl
mem-members_of album id (m ∷ ms) = ground (arith, mem-members_of album id ms)

place-found :
    (id : Text) (i : ℕ) (xs : List Text) (o : Option ℕ)
    → text_mem id xs ≡ true
    → or_else (place id i xs) o ≡ place id i xs
unfolding text_mem
place-found id i [] o h = absurd (cc h)
place-found id i (x ∷ xs) o h = ground (arith, place-found id (suc i) xs o)

any-mem :
    (id : Text) (xs ys : List Text)
    → text_mem id xs ≡ true
    → any (λ x. not (text_mem x ys)) xs ≡ false
    → text_mem id ys ≡ true
unfolding text_mem
any-mem id [] ys h n = absurd (cc h)
any-mem id (x ∷ xs) ys h n = elim (Bool-cases (text_eq x id)) [
  | inl e ↦ ap (λ y. text_mem y ys) (sym (text_eq→≡ x id e)) ∙ ground (arith, n)
  | inr e ↦ any-mem id xs ys (ground (arith, h)) (ground (arith, n))
]

-- ReorderAssets that reports success: each id of the given order has its place in the order, from 0,
-- as its position, and the members of every other album are where they were. Otherwise it reports a
-- failure and nothing changes.
pub reorder_assets_positions :
    (album a id : Text) (ids : List Text) (s : Albums)
    → text_mem id ids ≡ true
    → text_eq album a ≡ false
    → let (s', res) = reorder_assets album ids s in
      ((res ≡ ok)
        × (lookup (album, id) s'.members ≡ place id 0 ids)
        × (lookup (a, id) s'.members ≡ lookup (a, id) s.members))
      ⊎ ((res ≢ ok) × (s' ≡ s))
unfolding reorder_assets
reorder_assets_positions album a id ids s m h =
    elim (Bool-cases (length ids == 0 || not (distinct ids))) [
      | inl e ↦ rw e (inr ((λ x. cc x), refl))
      | inr e ↦ elim (Bool-cases (not (is_some (lookup album s.albums)))) [
        | inl f ↦ rw (e, f) (inr ((λ x. cc x), refl))
        | inr f ↦
            elim (Bool-cases (
              not (length (members_of album s.members) == length ids)
              || any (λ x. not (text_mem x (members_of album s.members))) ids)) [
                | inl g ↦ rw (e, f, g) (inr ((λ x. cc x), refl))
                | inr g ↦
                    rw (e, f, g)
                      (inl (
                        refl,
                        lookup-set_positions album id 0 ids s.members (ground (arith, e)) (
                              sym (mem-members_of album id s.members)
                              ∙ any-mem id ids (members_of album s.members) m (ground (arith, g)))
                            ∙ place-found id 0 ids _ m,
                        lookup-set_positions-other album a id 0 ids s.members h,
                      ))
              ]
      ]
    ]

lookup-insert_or_ignore :
    (album asset : Text) (pos : ℕ) (ms : List (MemberKey × ℕ)) (j : MemberKey)
    → lookup j (insert_or_ignore album asset pos ms).0 ≡ (
        if is_some (lookup j ms)
        then lookup j ms
        else if pair_eq (album, asset) j
        then some pos
        else none)
unfolding insert_or_ignore
lookup-insert_or_ignore album asset pos ms j = elim (Bool-cases (pair_eq (album, asset) j)) [
  | inl e ↦
      rw (e, sym ((pair_eq_iff (album, asset) j).0 e))
        (ground (
          arith,
          lookup-insert (album, asset) (album, asset) pos ms,
          (pair_eq_iff (album, asset) (album, asset)).1 refl,
        ))
  | inr e ↦ ground (arith, lookup-insert (album, asset) j pos ms)
]

present-insert_or_ignore :
    (album asset id : Text) (pos : ℕ) (ms : List (MemberKey × ℕ))
    → is_some (lookup (album, id) (insert_or_ignore album asset pos ms).0)
      ≡ (is_some (lookup (album, id) ms) || text_eq asset id)
present-insert_or_ignore album asset id pos ms =
    ap is_some (lookup-insert_or_ignore album asset pos ms (album, id))
    ∙ (unfold pair_eq in rw (text_eq_refl album) (ground arith))

present-insert_all :
    (album id : Text) (ids : List Text) (pos : ℕ) (ms : List (MemberKey × ℕ))
    → is_some (lookup (album, id) (insert_all album ids pos ms))
      ≡ (is_some (lookup (album, id) ms) || text_mem id ids)
unfolding insert_all text_mem
present-insert_all album id [] pos ms = ground arith
present-insert_all album id (x ∷ xs) pos ms =
    present-insert_all album id xs _ _
    ∙ rw (present-insert_or_ignore album x id pos ms) (ground arith)

kept-insert_all :
    (album : Text) (j : MemberKey) (ids : List Text) (pos n : ℕ) (ms : List (MemberKey × ℕ))
    → lookup j ms ≡ some n
    → lookup j (insert_all album ids pos ms) ≡ some n
unfolding insert_all
kept-insert_all album j [] pos n ms h = h
kept-insert_all album j (x ∷ xs) pos n ms h =
    kept-insert_all album j xs _ n _ (lookup-insert_or_ignore album x pos ms j ∙ rw h)

-- BatchAddAssets on an album that exists, where all the given assets exist: the album's members are
-- then those it had and the given ones. Otherwise it says which of the two fails and adds no member.
-- Each member of any album that was there before keeps its position.
batch_add_assets_members :
    (known : Text → Bool) (album id : Text) (ids : List Text) (j : MemberKey) (n : ℕ) (s : Albums)
    → lookup j s.members ≡ some n
    → let (s', res) = batch_add_assets known album ids s in
      let found = is_some (lookup album s.albums) in
      let missing = any (λ x. not (known x)) ids in
      (res ≡ (if not found then not_found else if missing then foreign_key_refused else ok))
      × (is_some (lookup (album, id) s'.members)
          ≡ (is_some (lookup (album, id) s.members) || (found && not missing && text_mem id ids)))
      × (lookup j s'.members ≡ some n)
unfolding batch_add_assets
batch_add_assets_members known album id ids j n s h =
    elim (Bool-cases (is_some (lookup album s.albums))) [
      | inr e ↦ rw e (refl, ground arith, h)
      | inl e ↦ elim (Bool-cases (any (λ x. not (known x)) ids)) [
        | inl f ↦ rw (e, f) (refl, ground arith, h)
        | inr f ↦
            rw (e, f)
              (
                refl,
                present-insert_all album id ids (next_position album s.members) s.members,
                kept-insert_all album j ids (next_position album s.members) n s.members h,
              )
      ]
    ]
