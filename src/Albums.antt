-- ===== src/Albums.antt =====
-- service/album.go: albums and their members, the tables albums and album_assets of pkg/sqlite/db.go.
-- The foreign keys of album_assets refuse a row whose album or asset does not exist, and so the whole
-- transaction; which assets exist is an argument. Other refusals of the database are not modelled, nor
-- are the columns created_at and added_at. List, Get and ListAssets, which only read, are left out.
pub mod Names
pub mod Order
mod Examples
use nimo_os_photos.Prelude.{
  is_space, ℕ, suc, ◌+◌, ◌≡◌, ◌↔◌, max, Bool, true, false, ◌&&◌, ◌||◌, not, Option, none, some,
  List, [], ◌∷◌, map, Text, text, text_Eq, text_eq, text_eq_iff, text_mem, pair_Eq, lookup, insert,
  delete, keep, any, is_some, is_empty, length, leb, ◌==◌, arith, if◌then◌else◌,
}

pub record Album : Type 0 where
  pub name : Text
  pub cover_asset_id : Option Text

-- The primary key of album_assets: the album and the asset.
abbrev pub MemberKey : Type 0
MemberKey = Text × Text

-- The albums by id, and the position of each member.
pub record Albums : Type 0 where
  pub albums : List (Text × Album)
  pub members : List (MemberKey × ℕ)

pub data Result : Type 0 where
  ok : Result
  invalid_input : Result
  not_found : Result
  album_name_exists : Result
  cover_not_in_album : Result
  foreign_key_refused : Result

trim_left : Text → Text
trim_left [] = []
trim_left (c ∷ s) = let rest = trim_left s in if is_space c then rest else c ∷ s

trim_right : Text → Text
trim_right [] = []
trim_right (c ∷ s) = let rest = trim_right s in if is_space c && is_empty rest then [] else c ∷ rest

-- strings.TrimSpace, of the ASCII white space.
unfoldable pub trim_space : Text → Text
unfolding trim_left trim_right
trim_space s = trim_right (trim_left s)

-- Another album than this one has the name; no album has the empty id.
unfoldable pub taken : Text → Text → List (Text × Album) → Bool
taken name id entries = any (λ a. text_eq a.1.name name && not (text_eq a.0 id)) entries

named : Text → List (Text × Album) → Bool
named name entries = any (λ a. text_eq a.1.name name) entries

-- The id is the fresh uuid.
pub create : Text → Text → Albums → Albums × Result
create id name s =
    let trimmed = trim_space name in
    if is_empty trimmed
    then (s, invalid_input)
    else if named trimmed s.albums
    then (s, album_name_exists)
    else (
      record s { albums = insert id (record { name = trimmed; cover_asset_id = none }) s.albums },
      ok,
    )

-- The members go with the album (ON DELETE CASCADE).
pub remove : Text → Albums → Albums × Result
remove id s =
    if is_some (lookup id s.albums)
    then (
      record {
        albums = delete id s.albums;
        members = keep (λ m. not (text_eq m.0.0 id)) s.members;
      },
      ok,
    )
    else (s, not_found)

-- UPDATE albums SET … WHERE id=?
update_album : (Album → Album) → Text → List (Text × Album) → List (Text × Album)
update_album f id [] = []
update_album f id ((k, a) ∷ entries) =
    (k, if text_eq k id then f a else a) ∷ update_album f id entries

pub update_name : Text → Text → Albums → Albums × Result
update_name id name s =
    let trimmed = trim_space name in
    if is_empty trimmed
    then (s, invalid_input)
    else if not (is_some (lookup id s.albums))
    then (s, not_found)
    else if taken trimmed id s.albums
    then (s, album_name_exists)
    else (record s { albums = update_album (λ a. record a { name = trimmed }) id s.albums }, ok)

pub update_cover : Text → Text → Albums → Albums × Result
update_cover id asset_id s =
    if not (is_some (lookup id s.albums))
    then (s, not_found)
    else if not (is_some (lookup (id, asset_id) s.members))
    then (s, cover_not_in_album)
    else (
      record s {
        albums = update_album (λ a. record a { cover_asset_id = some asset_id }) id s.albums;
      },
      ok,
    )

-- COALESCE(MAX(position), -1) + 1
unfoldable pub next_position : Text → List (MemberKey × ℕ) → ℕ
next_position album [] = 0
next_position album ((k, pos) ∷ ms) =
    let later = next_position album ms in if text_eq k.0 album then max (suc pos) later else later

-- INSERT OR IGNORE INTO album_assets; the flag is whether a row was inserted.
insert_or_ignore : Text → Text → ℕ → List (MemberKey × ℕ) → List (MemberKey × ℕ) × Bool
insert_or_ignore album asset pos ms =
    if is_some (lookup (album, asset) ms) then (ms, false) else (insert (album, asset) pos ms, true)

pub add_asset : (Text → Bool) → Text → Text → Albums → Albums × Result
add_asset known album asset s =
    if is_some (lookup album s.albums) && known asset
    then (
      record s {
        members = (insert_or_ignore album asset (next_position album s.members) s.members).0;
      },
      ok,
    )
    else (s, foreign_key_refused)

insert_all : Text → List Text → ℕ → List (MemberKey × ℕ) → List (MemberKey × ℕ)
insert_all album [] pos ms = ms
insert_all album (id ∷ ids) pos ms =
    let (ms', inserted) = insert_or_ignore album id pos ms in
    insert_all album ids (if inserted then suc pos else pos) ms'

pub batch_add_assets : (Text → Bool) → Text → List Text → Albums → Albums × Result
batch_add_assets known album ids s =
    if not (is_some (lookup album s.albums))
    then (s, not_found)
    else if any (λ id. not (known id)) ids
    then (s, foreign_key_refused)
    else (record s { members = insert_all album ids (next_position album s.members) s.members }, ok)

clear_cover : Text → Album → Album
clear_cover asset a =
    if any (λ c. text_eq c asset) (elim a.cover_asset_id [ none ↦ [] | some c ↦ c ∷ [] ])
    then record a { cover_asset_id = none }
    else a

pub remove_asset : Text → Text → Albums → Albums
remove_asset album asset s = record {
  albums = update_album (clear_cover asset) album s.albums;
  members = delete (album, asset) s.members;
}

-- The ids of the list are distinct.
distinct : List Text → Bool
distinct [] = true
distinct (id ∷ ids) = not (text_mem id ids) && distinct ids

members_of : Text → List (MemberKey × ℕ) → List Text
members_of album ms = map (λ m. m.0.1) (keep (λ m. text_eq m.0.0 album) ms)

set_position : MemberKey → ℕ → List (MemberKey × ℕ) → List (MemberKey × ℕ)
set_position k pos ms = if is_some (lookup k ms) then insert k pos ms else ms

set_positions : Text → ℕ → List Text → List (MemberKey × ℕ) → List (MemberKey × ℕ)
set_positions album i [] ms = ms
set_positions album i (id ∷ ids) ms =
    set_positions album (suc i) ids (set_position (album, id) i ms)

pub reorder_assets : Text → List Text → Albums → Albums × Result
reorder_assets album ids s =
    if (length ids == 0) || not (distinct ids)
    then (s, invalid_input)
    else if not (is_some (lookup album s.albums))
    then (s, not_found)
    else if not (length (members_of album s.members) == length ids)
        || any (λ id. not (text_mem id (members_of album s.members))) ids
    then (s, invalid_input)
    else (record s { members = set_positions album 0 ids s.members }, ok)
