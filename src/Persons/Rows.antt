-- ===== src/Persons/Rows.antt =====
-- The rows of face_detections, face_person and persons, and the statements that the calls share. A face
-- has at most one row in face_person, whose key it is, so the person is a field of the face; NULL and no
-- row are one. Deleting a person takes it off its faces (ON DELETE SET NULL). The numbers computed from
-- the embeddings are functions of the faces. The columns updated_at and the counts are left out.
use nimo_os_photos.Prelude.{
  ℕ, Bool, false, ◌&&◌, not, Option, none, some, List, map, Text, text_Eq, text_eq, lookup, delete,
  alter, is_some, if◌then◌else◌,
}

pub record Face : Type 0 where
  pub id : Text
  pub asset_id : Text
  pub excluded : Bool
  pub person_id : Option Text

pub record Person (F : Type 0) : Type 0 where
  pub name : Text
  pub favorite : Bool
  pub relation : Text
  pub hidden : Bool
  pub purge_at : Option ℕ
  pub cover_face_id : Option Text
  pub cover_asset_id : Option Text
  pub cover_locked : Bool
  pub hero_asset_id : Option Text
  pub centroid : Option (List F)
  pub confidence : F

pub record Store (F : Type 0) : Type 0 where
  pub faces : List Face
  pub persons : List (Text × Person F)

-- ComputeCentroid, ClusterConfidence, hybridCoverScore, cosDist to a centroid, and the area of the box.
pub record Measures (F : Type 0) : Type 0 where
  pub compute_centroid : List Face → List F
  pub cluster_confidence : List Face → List F → F
  pub hybrid_cover_score : Face → F
  pub cos_dist : Face → List F → F
  pub area : Face → F

-- Which statements fail; `write` is any of those that change rows between the check and the commit.
pub record Faults : Type 0 where
  pub begin : Bool
  pub check : Bool
  pub select : Bool
  pub write : Bool
  pub recompute : Bool
  pub commit : Bool

pub data Outcome (A : Type 0) : Type 0 where
  done : A → Outcome A
  not_found : Outcome A
  refused : Outcome A
  db_error : Outcome A

abbrev pub is_person : Text → Option Text → Bool
is_person p none = false
is_person p (some q) = text_eq q p

-- fp.person_id=?
abbrev pub bound_to : Text → Face → Bool
bound_to p f = is_person p f.person_id

-- fp.person_id=? AND fd.excluded=0
abbrev pub active : Text → Face → Bool
active p f = bound_to p f && not f.excluded

abbrev pub unbind : Text → Face → Face
unbind p f = if bound_to p f then record f { person_id = none } else f

module _ {F : Type 0} where
  abbrev pub exists : Text → Store F → Bool
  exists p s = is_some (lookup p s.persons)

  -- UPDATE persons SET … WHERE id=?
  abbrev pub update : Text → (Person F → Person F) → Store F → Store F
  update p g s = record s { persons = alter p g s.persons }

  -- DELETE FROM persons WHERE id=?
  abbrev pub delete_person : Text → Store F → Store F
  delete_person p s = record s { faces = map (unbind p) s.faces; persons = delete p s.persons }

  -- The end of a transaction: what the body made, or, by the deferred Rollback, the store as SQLite had it
  -- before Begin, wherever a statement or the Commit failed.
  abbrev pub finish : {A : Type 0} → Bool → Option (A × Store F) → Store F → Store F × Outcome A
  finish fault none s = (s, db_error)
  finish fault (some (a, s')) s = if fault then (s, db_error) else (s', done a)

  -- An UPDATE of one row outside a transaction.
  abbrev pub exec : Bool → Text → (Person F → Person F) → Store F → Store F × Outcome Unit
  exec fault p g s =
      if fault
      then (s, db_error)
      else if exists p s
      then (update p g s, done tt)
      else (s, not_found)
