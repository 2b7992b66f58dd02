-- ===== src/Moments/Calls.antt =====
-- service/momentstore.go: PinMomentAssets, ExcludeMomentAssets, HideMoment, SetMomentTitle and
-- ReorderMoments. An edit of a moment that is not there violates its foreign key.
use nimo_os_photos.Prelude.{
  ℕ, suc, ◌+◌, ◌*◌, Bool, true, false, not, Option, none, some, List, [], ◌∷◌, Text, text_Eq,
  pair_Eq, lookup, insert, delete, alter, is_some, ◌==◌, Float64, ◌>>=◌, if◌then◌else◌,
}
use nimo_os_photos.Moments.Rows.{Moment, EditOp, Store, is_alive}
use nimo_os_photos.Moments.Derived.{insert_new, refresh_moment_derived}

pub record CallFaults : Type 0 where
  pub begin : Bool
  pub asset : Text → Bool
  pub finish : Bool

abbrev pub count_if : Bool → ℕ → ℕ
count_if b n = if b then suc n else n

abbrev pub count_of : Option Moment → Option ℕ
count_of none = none
count_of (some m) = some m.asset_count

abbrev pub has_time_window : Option Moment → Option Bool
has_time_window none = none
has_time_window (some m) = some (is_some m.time_from)

unfoldable pub reorder_from : ℕ → List Text → List (Text × Moment) → List (Text × Moment)
reorder_from i [] ms = ms
reorder_from i (id ∷ ids) ms =
    reorder_from (suc i) ids (alter id (λ m. record m { sort_order = some ((i + 1) * 10) }) ms)

module _ {F : Type 0} where
  -- The members after an edit of one asset, with the rows that changed so far.
  abbrev pub edit_members : F → ℕ → EditOp → Text → Text → ℕ × Store F → ℕ × Store F
  edit_members nil now EditOp.pin id aid (n, s) =
      if is_alive s.assets aid
      then (
        count_if (not (is_some (lookup (id, aid) s.members))) n,
        record s {
          members =
              insert_new (id, aid)
                (record { featured = false; score = nil; manual = true; added_at = some now })
                s.members;
        },
      )
      else (n, s)
  edit_members nil now EditOp.exclude id aid (n, s) = (
    count_if (is_some (lookup (id, aid) s.members)) n,
    record s { members = delete (id, aid) s.members },
  )

  abbrev pub record_edit : ℕ → EditOp → Text → Text → Store F → Store F
  record_edit now op id aid s = record s {
    edits = insert (id, aid) (record { op = op; created_at = now }) s.edits;
  }

  unfoldable pub edit_one :
      CallFaults → F → ℕ → EditOp → Text → Text → ℕ × Store F → Option (ℕ × Store F)
  edit_one f nil now op id aid (n, s) =
      if f.asset aid
      then none
      else if not (is_some (lookup aid s.assets))
      then some (n, s)
      else if is_some (lookup id s.moments)
      then some (edit_members nil now op id aid (n, record_edit now op id aid s))
      else none

  unfoldable pub edit_all :
      CallFaults → F → ℕ → EditOp → Text → List Text → ℕ × Store F → Option (ℕ × Store F)
  edit_all f nil now op id [] x = some x
  edit_all f nil now op id (aid ∷ aids) x = do
    x' ← edit_one f nil now op id aid x
    edit_all f nil now op id aids x'

  abbrev pub read_count : Text → Store F → Option (ℕ × Store F)
  read_count id s = do count ← count_of (lookup id s.moments); some (count, s)

  unfoldable pub hide_moment : Bool → ℕ → Text → Store F → Store F × Bool
  hide_moment fault now id s = if fault then (s, false) else (
    record s { moments = alter id (λ m. record m { hidden = true; updated_at = now }) s.moments },
    true,
  )

  unfoldable pub set_moment_title : Bool → ℕ → Text → Text → Store F → Store F × Bool
  set_moment_title fault now id title s = if fault then (s, false) else (
    record s {
      moments =
          alter id (λ m. record m { title = title; named_by_llm = true; updated_at = now })
            s.moments;
    },
    true,
  )

  unfoldable pub reorder_moments : Bool → List Text → Store F → Store F × Bool
  reorder_moments fault ids s =
      if fault then (s, false) else (record s { moments = reorder_from 0 ids s.moments }, true)

module _ (r : Float64) where
  -- The end of the transaction, from the number of member rows that changed.
  abbrev pub finish_edit : CallFaults → ℕ → Text → ℕ × Store r.F → Option (ℕ × Store r.F)
  finish_edit f later id (n, s) = if f.finish then none else if n == 0 then read_count id s else (do
    had ← has_time_window (lookup id s.moments)
    s' ← refresh_moment_derived r had later id s
    read_count id s')

  abbrev pub edit_result : Store r.F → Option (ℕ × Store r.F) → Store r.F × Option ℕ
  edit_result s none = (s, none)
  edit_result s (some (count, s')) = (s', some count)

  unfoldable pub apply_moment_edit_op :
      CallFaults → ℕ → ℕ → EditOp → Text → List Text → Store r.F → Store r.F × Option ℕ
  apply_moment_edit_op f now later op id aids s = edit_result s (
      if f.begin
      then none
      else (do x ← edit_all f (r.lit 0 1) now op id aids (0, s); finish_edit f later id x))
