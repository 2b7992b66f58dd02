-- ===== src/Albums/Names.antt =====
-- No two albums have one name.
use nimo_os_photos.Prelude.{
  ◌≡◌, refl, ap, sym, subst, ◌∙◌, Bool, true, false, ◌&&◌, not, Option, none, some, List, [], ◌∷◌,
  Text, text_Eq, text_eq, pair_Eq, text_eq_iff, text_eq→≡, lookup, insert, delete, lookup-insert,
  lookup-delete, is_some, is_empty, arith, if◌then◌else◌, Bool-cases, inl, inr,
}
use mathlib.Core.Option as Option
use nimo_os_photos.Albums.{
  Album, Albums, trim_space, named, taken, create, remove, update_album, update_name, update_cover,
  add_asset, remove_asset, batch_add_assets, reorder_assets, clear_cover,
}

-- The names of the albums by id.
abbrev name_of : Option Album → Option Text
name_of none = none
name_of (some a) = some a.name

abbrev pub has_name : Text → Option Album → Bool
has_name n none = false
has_name n (some a) = text_eq a.name n

-- Two albums with one name are one album.
abbrev pub UniqueNames : List (Text × Album) → Type 0
UniqueNames entries =
    (n j k : Text)
    → has_name n (lookup j entries) ≡ true
    → has_name n (lookup k entries) ≡ true
    → text_eq j k ≡ true

has_name-taken :
    (n j id : Text) (entries : List (Text × Album))
    → has_name n (lookup j entries) ≡ true
    → taken n id entries ≡ false
    → text_eq j id ≡ true
unfolding lookup taken
has_name-taken n j id [] h t = absurd (cc h)
has_name-taken n j id ((k, a) ∷ entries) h t = elim (Bool-cases (text_eq k j)) [
  | inl e ↦ ap (λ x. text_eq x id) (sym (text_eq→≡ k j e)) ∙ ground (arith, rw e at h, t)
  | inr e ↦ has_name-taken n j id entries (rw e at h) (ground (arith, t))
]

has_name-named :
    (n j : Text) (entries : List (Text × Album))
    → named n entries ≡ false
    → has_name n (lookup j entries) ≡ false
unfolding lookup named
has_name-named n j [] t = refl
has_name-named n j ((k, a) ∷ entries) t = elim (Bool-cases (text_eq k j)) [
  | inl e ↦ rw e (ground (arith, t))
  | inr e ↦ rw e (has_name-named n j entries (ground (arith, t)))
]

lookup-update_album :
    (f : Album → Album) (id j : Text) (entries : List (Text × Album))
    → lookup j (update_album f id entries)
      ≡ (if text_eq id j then Option.map f (lookup j entries) else lookup j entries)
unfolding lookup update_album
lookup-update_album f id j [] = ground arith
lookup-update_album f id j ((k, a) ∷ entries) =
    ground (
      arith,
      text_eq_iff k id,
      text_eq_iff k j,
      text_eq_iff id j,
      lookup-update_album f id j entries,
    )

has_name-insert :
    (n m id j : Text) (entries : List (Text × Album))
    → has_name n (lookup j (insert id (record { name = m; cover_asset_id = none }) entries))
      ≡ (if text_eq id j then text_eq m n else has_name n (lookup j entries))
has_name-insert n m id j entries = rw (lookup-insert) (ground arith)

create-UniqueNames :
    (id name : Text) (s : Albums) → UniqueNames s.albums → UniqueNames (create id name s).0.albums
unfolding create
create-UniqueNames id name s h = elim (Bool-cases (is_empty (trim_space name))) [
  | inl e ↦ rw e h
  | inr e ↦ elim (Bool-cases (named (trim_space name) s.albums)) [
    | inl t ↦ rw (e, t) h
    | inr t ↦
        rw (e, t)
          λ n j k p q. ground (
            arith,
            text_eq_iff id j,
            text_eq_iff id k,
            text_eq_iff j k,
            text_eq_iff (trim_space name) n,
            h n j k,
            has_name-insert n (trim_space name) id j s.albums,
            has_name-insert n (trim_space name) id k s.albums,
            has_name-named (trim_space name) j s.albums t,
            has_name-named (trim_space name) k s.albums t,
            p,
            q,
          )
  ]
]

has_name-rename :
    (n m id j : Text) (entries : List (Text × Album))
    → has_name n (lookup j (update_album (λ a. record a { name = m }) id entries)) ≡ (
        if text_eq id j
        then is_some (lookup j entries) && text_eq m n
        else has_name n (lookup j entries))
has_name-rename n m id j entries =
    ap (has_name n) (lookup-update_album (λ a. record a { name = m }) id j entries)
    ∙ ground (arith, renamed (lookup j entries))
  where
    renamed :
        (o : Option Album)
        → has_name n (Option.map {A = Album} (λ a. record a { name = m }) o)
          ≡ (is_some o && text_eq m n)
    renamed none = refl
    renamed (some a) = refl

update_name-UniqueNames :
    (id name : Text) (s : Albums)
    → UniqueNames s.albums
    → UniqueNames (update_name id name s).0.albums
unfolding update_name
update_name-UniqueNames id name s h = elim (Bool-cases (is_empty (trim_space name))) [
  | inl e ↦ rw e h
  | inr e ↦ elim (Bool-cases (not (is_some (lookup id s.albums)))) [
    | inl f ↦ rw (e, f) h
    | inr f ↦ elim (Bool-cases (taken (trim_space name) id s.albums)) [
      | inl t ↦ rw (e, f, t) h
      | inr t ↦
          rw (e, f, t)
            λ n j k p q. ground (
              arith,
              text_eq_iff id j,
              text_eq_iff id k,
              text_eq_iff j id,
              text_eq_iff k id,
              text_eq_iff j k,
              text_eq_iff (trim_space name) n,
              h n j k,
              has_name-rename n (trim_space name) id j s.albums,
              has_name-rename n (trim_space name) id k s.albums,
              has_name-taken (trim_space name) j id s.albums,
              has_name-taken (trim_space name) k id s.albums,
              t,
              p,
              q,
            )
    ]
  ]
]

-- An UPDATE that keeps the name.
keeping_name :
    (f : Album → Album) (n id j : Text) (entries : List (Text × Album))
    → ((a : Album) → (f a).name ≡ a.name)
    → has_name n (lookup j (update_album f id entries)) ≡ has_name n (lookup j entries)
keeping_name f n id j entries h =
    ap (has_name n) (lookup-update_album f id j entries) ∙ ground (arith, mapped (lookup j entries))
  where
    mapped : (o : Option Album) → has_name n (Option.map f o) ≡ has_name n o
    mapped none = refl
    mapped (some a) = ap (λ x. text_eq x n) (h a)

update_album-UniqueNames :
    (f : Album → Album) (id : Text) (entries : List (Text × Album))
    → ((a : Album) → (f a).name ≡ a.name)
    → UniqueNames entries
    → UniqueNames (update_album f id entries)
update_album-UniqueNames f id entries k h n j l p q =
    h n j l (sym (keeping_name f n id j entries k) ∙ p) (sym (keeping_name f n id l entries k) ∙ q)

delete-UniqueNames :
    (id : Text) (entries : List (Text × Album))
    → UniqueNames entries
    → UniqueNames (delete id entries)
delete-UniqueNames id entries h n j k p q = h n j k (there j p) (there k q)
  where
    there :
        (x : Text)
        → has_name n (lookup x (delete id entries)) ≡ true
        → has_name n (lookup x entries) ≡ true
    there x t =
        ground (arith, lookup-delete id x entries, ap (has_name n) (lookup-delete id x entries), t)

-- The calls of the service that write, with the fresh id of a new album.
pub data Edit : Type 0 where
  create_edit : Text → Text → Edit
  remove_edit : Text → Edit
  name_edit : Text → Text → Edit
  cover_edit : Text → Text → Edit
  add_edit : Text → Text → Edit
  batch_edit : Text → List Text → Edit
  remove_asset_edit : Text → Text → Edit
  reorder_edit : Text → List Text → Edit

edit : (Text → Bool) → Edit → Albums → Albums
edit known (create_edit id n) s = (create id n s).0
edit known (remove_edit id) s = (remove id s).0
edit known (name_edit id n) s = (update_name id n s).0
edit known (cover_edit id a) s = (update_cover id a s).0
edit known (add_edit id a) s = (add_asset known id a s).0
edit known (batch_edit id assets) s = (batch_add_assets known id assets s).0
edit known (remove_asset_edit id a) s = remove_asset id a s
edit known (reorder_edit id assets) s = (reorder_assets id assets s).0

pub run_edits : (Text → Bool) → List Edit → Albums → Albums
run_edits known [] s = s
run_edits known (e ∷ es) s = run_edits known es (edit known e s)

name-clear_cover : (asset : Text) (a : Album) → (clear_cover asset a).name ≡ a.name
unfolding clear_cover
name-clear_cover asset a = ground arith

remove-UniqueNames :
    (id : Text) (s : Albums) → UniqueNames s.albums → UniqueNames (remove id s).0.albums
unfolding remove
remove-UniqueNames id s h = elim (Bool-cases (is_some (lookup id s.albums))) [
  | inl e ↦ rw e (delete-UniqueNames id s.albums h)
  | inr e ↦ rw e h
]

update_cover-UniqueNames :
    (id a : Text) (s : Albums) → UniqueNames s.albums → UniqueNames (update_cover id a s).0.albums
unfolding update_cover
update_cover-UniqueNames id a s h = elim (Bool-cases (not (is_some (lookup id s.albums)))) [
  | inl e ↦ rw e h
  | inr e ↦ elim (Bool-cases (not (is_some (lookup (id, a) s.members)))) [
    | inl f ↦ rw (e, f) h
    | inr f ↦
        rw (e, f)
          (update_album-UniqueNames (λ x. record x { cover_asset_id = some a }) id s.albums
            (λ x. refl) h)
  ]
]

albums-add_asset :
    (known : Text → Bool) (id a : Text) (s : Albums) → (add_asset known id a s).0.albums ≡ s.albums
unfolding add_asset
albums-add_asset known id a s = ground arith

albums-batch_add_assets :
    (known : Text → Bool) (id : Text) (ids : List Text) (s : Albums)
    → (batch_add_assets known id ids s).0.albums ≡ s.albums
unfolding batch_add_assets
albums-batch_add_assets known id ids s = ground arith

albums-reorder_assets :
    (id : Text) (ids : List Text) (s : Albums) → (reorder_assets id ids s).0.albums ≡ s.albums
unfolding reorder_assets
albums-reorder_assets id ids s = ground arith

edit-UniqueNames :
    (known : Text → Bool) (e : Edit) (s : Albums)
    → UniqueNames s.albums
    → UniqueNames (edit known e s).albums
unfolding edit remove_asset
edit-UniqueNames known (create_edit id n) s h = create-UniqueNames id n s h
edit-UniqueNames known (remove_edit id) s h = remove-UniqueNames id s h
edit-UniqueNames known (name_edit id n) s h = update_name-UniqueNames id n s h
edit-UniqueNames known (cover_edit id a) s h = update_cover-UniqueNames id a s h
edit-UniqueNames known (add_edit id a) s h =
    subst UniqueNames (sym (albums-add_asset known id a s)) h
edit-UniqueNames known (batch_edit id assets) s h =
    subst UniqueNames (sym (albums-batch_add_assets known id assets s)) h
edit-UniqueNames known (remove_asset_edit id a) s h =
    update_album-UniqueNames (clear_cover a) id s.albums (name-clear_cover a) h
edit-UniqueNames known (reorder_edit id assets) s h =
    subst UniqueNames (sym (albums-reorder_assets id assets s)) h

-- Whatever the service is called with, and in whatever order: if no two albums had one name before,
-- no two have one afterwards.
pub run_edits-UniqueNames :
    (known : Text → Bool) (es : List Edit) (s : Albums)
    → UniqueNames s.albums
    → UniqueNames (run_edits known es s).albums
unfolding run_edits
run_edits-UniqueNames known [] s h = h
run_edits-UniqueNames known (e ∷ es) s h =
    run_edits-UniqueNames known es (edit known e s) (edit-UniqueNames known e s h)
