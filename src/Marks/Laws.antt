-- ===== src/Marks/Laws.antt =====
-- Favorites keep their first time, and views are counted.
use nimo_os_photos.Prelude.{
  ℕ, suc, ◌+◌, ◌≡◌, refl, ap, sym, ◌∙◌, true, false, ◌&&◌, ◌||◌, Option, none, some, List, [], ◌∷◌,
  map, Text, text_eq, text_eq_refl, text_mem, pair_Eq, pair_eq, pair_eq_iff, lookup, delete,
  lookup-insert, lookup-delete, keep, is_some, arith, if◌then◌else◌, Bool-cases, inl, inr,
}
use nimo_os_photos.Assets.{Table, row_of}
use nimo_os_photos.Marks.{
  Key, Favorites, favorite, unfavorite, is_favorited, by_time, newest_first, list_ids, Views,
  viewed, record_view, count_of, count,
}

-- Favorite of an asset that exists answers with the time of the first time it was favorited, or now;
-- that time stays, and no other favorite changes. An asset that does not exist is refused.
favorite_first_time :
    (now : ℕ) (user_id asset_id : Text) (k : Key) (t : Table) (favs : Favorites)
    → let (favs', time) = favorite now user_id asset_id t favs in
      let old = lookup (user_id, asset_id) favs in
      (time
        ≡ (if is_some (row_of asset_id t) then (if is_some old then old else some now) else none))
      × (lookup k favs' ≡ (
          if pair_eq (user_id, asset_id) k && is_some (row_of asset_id t)
          then time
          else lookup k favs))
unfolding favorite
favorite_first_time now user_id asset_id k t favs =
    elim (Bool-cases (pair_eq (user_id, asset_id) k)) [
      | inl e ↦
          rw (e, sym ((pair_eq_iff (user_id, asset_id) k).0 e))
            (ground (
              arith,
              lookup-insert (user_id, asset_id) (user_id, asset_id) now favs,
              (pair_eq_iff (user_id, asset_id) (user_id, asset_id)).1 refl,
            ))
      | inr e ↦ rw e (
          ground (
            arith,
            lookup-insert (user_id, asset_id) (user_id, asset_id) now favs,
            (pair_eq_iff (user_id, asset_id) (user_id, asset_id)).1 refl,
            lookup-insert (user_id, asset_id) k now favs,
          ))
    ]

ids : Favorites → List Text
ids favs = map (λ f. f.0.1) favs

mem-by_time :
    (a : Text) (f : Key × ℕ) (favs : Favorites)
    → text_mem a (ids (by_time f favs)) ≡ (text_eq f.0.1 a || text_mem a (ids favs))
unfolding by_time text_mem ids
mem-by_time a f [] = refl
mem-by_time a f (g ∷ gs) = ground (arith, mem-by_time a f gs)

mem-newest_first :
    (a : Text) (favs : Favorites) → text_mem a (ids (newest_first favs)) ≡ text_mem a (ids favs)
unfolding newest_first text_mem ids
mem-newest_first a [] = refl
mem-newest_first a (f ∷ fs) =
    mem-by_time a f (newest_first fs) ∙ ap (λ b. text_eq f.0.1 a || b) (mem-newest_first a fs)

mem-keep :
    (u a : Text) (favs : Favorites)
    → text_mem a (ids (keep (λ f. text_eq f.0.0 u) favs)) ≡ is_some (lookup (u, a) favs)
unfolding lookup text_mem pair_eq ids
mem-keep u a [] = refl
mem-keep u a (f ∷ fs) = ground (arith, mem-keep u a fs)

-- ListIDs of a user names exactly the assets that IsFavorited answers for; Unfavorite takes away the
-- one and leaves the others.
list_ids_exact :
    (user_id asset_id a : Text) (favs : Favorites)
    → (text_mem a (list_ids user_id favs) ≡ is_favorited user_id a favs)
      × (text_mem a (list_ids user_id (unfavorite user_id asset_id favs))
          ≡ (if text_eq asset_id a then false else text_mem a (list_ids user_id favs)))
unfolding list_ids is_favorited unfavorite newest_first ids
list_ids_exact user_id asset_id a favs = (
  listed favs,
  listed (delete (user_id, asset_id) favs)
      ∙ ap is_some (lookup-delete (user_id, asset_id) (user_id, a) favs)
      ∙ (unfold pair_eq in ground (arith, text_eq_refl user_id, listed favs)),
)
  where
    listed :
        (fs : Favorites)
        → text_mem a (ids (newest_first (keep (λ f. text_eq f.0.0 user_id) fs)))
          ≡ is_some (lookup (user_id, a) fs)
    listed fs = mem-newest_first a (keep (λ f. text_eq f.0.0 user_id) fs) ∙ mem-keep user_id a fs

-- Calls of Record, with the time of each.
pub record_all : Table → List (Key × ℕ) → List (Key × Views) → List (Key × Views)
record_all t [] views = views
record_all t ((k, now) ∷ calls) views = record_all t calls (record_view now k.0 k.1 t views).0

abbrev pub calls_of : Key → List (Key × ℕ) → ℕ
calls_of k [] = 0
calls_of k ((j, now) ∷ calls) =
    let later = calls_of k calls in if pair_eq j k then suc later else later

count-viewed : (now : ℕ) (o : Option Views) → count_of (some (viewed now o)) ≡ count_of o + 1
unfolding count_of viewed
count-viewed now none = refl
count-viewed now (some v) = refl

count-record_view :
    (now : ℕ) (j k : Key) (t : Table) (views : List (Key × Views))
    → count k.0 k.1 (record_view now j.0 j.1 t views).0 ≡ (
        if pair_eq j k && is_some (row_of j.1 t)
        then count k.0 k.1 views + 1
        else count k.0 k.1 views)
unfolding count record_view
count-record_view now j k t views = elim (Bool-cases (pair_eq j k)) [
  | inl e ↦
      rw (e, sym ((pair_eq_iff j k).0 e))
        (ground (
          arith,
          ap count_of (lookup-insert j j (viewed now (lookup j views)) views),
          (pair_eq_iff j j).1 refl,
          count-viewed now (lookup j views),
        ))
  | inr e ↦
      rw e (ground (arith, ap count_of (lookup-insert j k (viewed now (lookup j views)) views)))
]

counted-cons :
    (j k : Key) (now : ℕ) (t : Table) (calls : List (Key × ℕ)) (views : List (Key × Views))
    → is_some (row_of k.1 t) ≡ true
    → count k.0 k.1 (record_view now j.0 j.1 t views).0 + calls_of k calls
      ≡ count k.0 k.1 views + calls_of k ((j, now) ∷ calls)
counted-cons j k now t calls views h = elim (Bool-cases (pair_eq j k)) [
  | inl e ↦
      let there : is_some (row_of j.1 t) ≡ true =
        ap (λ i. is_some (row_of i.1 t)) ((pair_eq_iff j k).0 e) ∙ h in
      rw (count-record_view, e, there) (omega arith)
  | inr e ↦ rw (count-record_view, e) (omega arith)
]

-- The view count of a user on an asset that exists grows by the number of the calls of Record for that
-- user and asset, whatever other calls come between.
count-record_all :
    (t : Table) (calls : List (Key × ℕ)) (user_id asset_id : Text) (views : List (Key × Views))
    → is_some (row_of asset_id t) ≡ true
    → count user_id asset_id (record_all t calls views)
      ≡ count user_id asset_id views + calls_of (user_id, asset_id) calls
unfolding record_all
count-record_all t [] user_id asset_id views h = omega arith
count-record_all t ((j, now) ∷ calls) user_id asset_id views h =
    count-record_all t calls user_id asset_id _ h
    ∙ counted-cons j (user_id, asset_id) now t calls views h
