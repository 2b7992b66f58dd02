-- ===== src/SmartViews/Membership.antt =====
-- The abstract view of a smart view: what it holds each asset as, whatever the scores and times. The
-- operations of the service refine operations on it.
use nimo_os_photos.Prelude.{
  ℕ, ◌≡◌, refl, Bool, true, false, ◌&&◌, Option, none, some, List, Text, text_Eq, text_mem, pair_Eq,
  lookup, any, is_some, Float64, arith, if◌then◌else◌,
}
use nimo_os_photos.SmartViews.Evaluate.{
  Origin, Match, Matches, Store, Result, done, not_found, db_error, Env, evaluate,
}
use nimo_os_photos.SmartViews.Reconcile.{reconciled}
use nimo_os_photos.SmartViews.Rows.{quiet}
use nimo_os_photos.SmartViews.Manual.{pin_assets, remove_assets, is_excluded, restore_assets}
use nimo_os_photos.SmartViews.Changes.{pinned_row, removed_row, restored_row, is_pinned}

abbrev pub pinned_member : Option Origin → Bool
pinned_member none = false
pinned_member (some o) = elim o [ Origin.pinned ↦ true | _ ↦ false ]

abbrev pub excluded_member : Option Origin → Bool
excluded_member none = false
excluded_member (some o) = elim o [ Origin.excluded ↦ true | _ ↦ false ]

-- Unpinning and excluding.
abbrev pub remove_member : Option Origin → Option Origin
remove_member none = none
remove_member (some Origin.pinned) = none
remove_member (some Origin.auto) = some Origin.excluded
remove_member (some Origin.excluded) = some Origin.excluded

abbrev pub restore_member : Option Origin → Option Origin
restore_member o = if excluded_member o then none else o

-- The recompute: whether the conditions select the asset decides, but for the rows of the user.
abbrev pub recompute_member : Bool → Option Origin → Option Origin
recompute_member sel none = if sel then some Origin.auto else none
recompute_member sel (some Origin.auto) = if sel then some Origin.auto else none
recompute_member sel (some Origin.pinned) = some Origin.pinned
recompute_member sel (some Origin.excluded) = some Origin.excluded

pub data Call : Type 0 where
  pin remove restore : List Text → Call
  evaluation : Call

-- What a view holds each asset as.
abbrev pub Members : Type 0
Members = Text → Option Origin

-- A call on the abstract view: `live` is the view's, `sel` what the conditions select, and `ok` which
-- assets exist.
unfoldable pub abstract_call : Bool → (Text → Bool) → (Text → Bool) → Call → Members → Members
abstract_call live sel ok (pin ids) m a = if text_mem a ids && ok a then some Origin.pinned else m a
abstract_call live sel ok (remove ids) m a =
    let removed = if text_mem a ids then remove_member (m a) else m a in
    if live && any (λ x. pinned_member (m x)) ids then recompute_member (sel a) removed else removed
abstract_call live sel ok (restore ids) m a =
    let restored = if text_mem a ids then restore_member (m a) else m a in
    if live && any (λ x. excluded_member (m x)) ids
    then recompute_member (sel a) restored
    else restored
abstract_call live sel ok evaluation m a = recompute_member (sel a) (m a)

abbrev pub is_done : {A : Type 0} → Result A → Bool
is_done (done a) = true
is_done not_found = false
is_done db_error = false

-- The call of the service, where no statement fails, and whether it succeeds.
unfoldable pub run_call : (r : Float64) → Env r.F → ℕ → Text → Call → Store r.F → Store r.F × Bool
run_call r e now id (pin ids) s =
    let (s', result) = pin_assets quiet now (r.lit 1 1) id ids s in (s', is_done result)
run_call r e now id (remove ids) s =
    let (s', result) = remove_assets r e quiet quiet now id ids s in (s', is_done result)
run_call r e now id (restore ids) s =
    let (s', result) = restore_assets r e quiet quiet now id ids s in (s', is_done result)
run_call r e now id evaluation s =
    let (s', result) = evaluate r e quiet now id s in (s', is_done result)

module _ {F : Type 0} where
  abbrev pub origin_of : Option (Match F) → Option Origin
  origin_of none = none
  origin_of (some m) = some m.origin

  abbrev pub members : Text → Matches F → Members
  members id ms a = origin_of (lookup (id, a) ms)

  pub removed_origin :
      (o : Option (Match F)) → origin_of (removed_row o) ≡ remove_member (origin_of o)
  removed_origin none = refl
  removed_origin (some m) = ground arith

  pub restored_origin :
      (o : Option (Match F)) → origin_of (restored_row o) ≡ restore_member (origin_of o)
  restored_origin none = refl
  restored_origin (some m) = ground arith

  pub pinned_origin :
      (now : ℕ) (one : F) (o : Option (Match F))
      → origin_of (pinned_row now one o) ≡ some Origin.pinned
  pinned_origin now one none = refl
  pinned_origin now one (some m) = ground arith

  pub pinned_pinned :
      (now : ℕ) (one : F) (o : Option (Match F))
      → pinned_row now one (pinned_row now one o) ≡ pinned_row now one o
  pinned_pinned now one none = refl
  pinned_pinned now one (some m) = ground arith

  pub removed_removed : (o : Option (Match F)) → removed_row (removed_row o) ≡ removed_row o
  removed_removed none = refl
  removed_removed (some m) = ground arith

  pub reconciled_origin :
      (now : ℕ) (sel : Option F) (o : Option (Match F))
      → origin_of (reconciled now sel o) ≡ recompute_member (is_some sel) (origin_of o)
  reconciled_origin now none none = refl
  reconciled_origin now (some sc) none = refl
  reconciled_origin now sel (some m) = ground arith

  pub restored_restored : (o : Option (Match F)) → restored_row (restored_row o) ≡ restored_row o
  restored_restored none = refl
  restored_restored (some m) = ground arith

  pub pinned_as : (o : Option (Match F)) → is_pinned o ≡ pinned_member (origin_of o)
  pinned_as none = refl
  pinned_as (some m) = refl

  pub excluded_as : (o : Option (Match F)) → is_excluded o ≡ excluded_member (origin_of o)
  excluded_as none = refl
  excluded_as (some m) = refl
