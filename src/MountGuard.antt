-- ===== src/MountGuard.antt =====
-- service/mountguard.go: assets.offline follows the removable mounts. Sets of mounts (Go's
-- map[string]bool) are lists of their keys; the mount table of a tick and the statements of it that
-- fail are arguments.
pub mod Tick
pub mod Alignment
mod Examples
use nimo_os_photos.Prelude.{
  ℕ, Bool, true, false, ◌&&◌, ◌||◌, not, Option, none, some, List, [], ◌∷◌, ◌++◌, map, Text, text,
  has_prefix, trim_slashes, text_eq, text_mem, any, keep, if◌then◌else◌,
}
use nimo_os_photos.Assets.{AssetRow, Table, update_where}
use nimo_os_photos.ScanRoots.{is_excluded_mount, excluded_mount_prefixes}

abbrev pub removable_roots : List Text
removable_roots = text "/media/" ∷ []

-- Which UPDATE statements fail, by the mount that they are for.
pub record Faults : Type 0 where
  pub off : Text → Bool
  pub on : Text → Bool
  pub outside : Bool

pub record MountGuard : Type 0 where
  pub last_mounts : List Text
  pub recovering : List Text

-- The mounts of EnumerateScanRoots that stand under a removable root.
pub current_removable_mounts : List Text → List Text
current_removable_mounts roots = keep (λ m. any (λ p. has_prefix m p) removable_roots) roots

-- substr(file_path,1,length(p))=p for the mount's directory.
unfoldable pub under : Text → Text → Bool
under path mount = has_prefix path (trim_slashes mount ++ text "/")

abbrev pub set_offline : Bool → AssetRow → AssetRow
set_offline b r = record r { offline = b }

-- The new table, and whether the statement succeeded.
pub mark_offline : Bool → Text → Table → Table × Bool
mark_offline fault mount t =
    if fault
    then (t, false)
    else (update_where (λ r. not r.offline && under r.file_path mount) (set_offline true) t, true)

pub mark_online : Bool → Text → Table → Table × Bool
mark_online fault mount t =
    if fault
    then (t, false)
    else (update_where (λ r. r.offline && under r.file_path mount) (set_offline false) t, true)

-- The condition of markOfflineOutside on a row.
abbrev pub outside : List Text → AssetRow → Bool
outside cur r =
    not r.offline
    && has_prefix r.file_path (text "/media/")
    && not (any (λ m. under r.file_path m) cur)
    && not (any (λ p. has_prefix r.file_path p) excluded_mount_prefixes)

pub mark_offline_outside : Bool → List Text → Table → Table
mark_offline_outside fault cur t =
    if fault then t else update_where (outside cur) (set_offline true) t

add_key : Text → List Text → List Text
add_key m set = if text_mem m set then set else m ∷ set

delete_key : Text → List Text → List Text
delete_key m [] = []
delete_key m (n ∷ set) = let rest = delete_key m set in if text_eq n m then rest else n ∷ rest

unfoldable pub to_mount_set : List Text → List Text
unfolding add_key
to_mount_set [] = []
to_mount_set (m ∷ ms) =
    let rest = to_mount_set ms in if is_excluded_mount m then rest else add_key m rest

online_all : (Text → Bool) → List Text → Table → Table
online_all fault [] t = t
online_all fault (m ∷ ms) t = online_all fault ms (mark_online (fault m) m t).0

pub align_with : Faults → List Text → Table → Table
align_with f cur t = mark_offline_outside f.outside cur (online_all f.on cur t)

-- The first loop of checkOnce, over the previous snapshot: the table and the next snapshot.
vanish : Faults → List Text → List Text → Table → List Text → Table × List Text
vanish f cur [] t next = (t, next)
vanish f cur (m ∷ ms) t next =
    let present = text_mem m cur in
    let (t', ok) = mark_offline (f.off m) m t in
    vanish f cur ms (if present then t else t') (if present || ok then next else add_key m next)

-- The second loop, over the current mounts; the last list are the mounts whose recovery is spawned.
appear : Faults → List Text → List Text → Table → List Text → Table × List Text × List Text
appear f prev [] t next = (t, next, [])
appear f prev (m ∷ ms) t next =
    let known = text_mem m prev in
    let (t', ok) = mark_online (f.on m) m t in
    let (t'', next', back) =
      appear f prev ms (if known then t else t')
        (if known || ok then next else delete_key m next) in
    (t'', next', if not known && ok then m ∷ back else back)

-- spawnRecovery: a mount whose recovery is in flight is dropped; the flag is whether one starts.
pub spawn_recovery : MountGuard → Text → MountGuard × Bool
spawn_recovery g m =
    if text_mem m g.recovering
    then (g, false)
    else (record g { recovering = m ∷ g.recovering }, true)

-- The end of the recovery's goroutine.
pub recovery_done : MountGuard → Text → MountGuard
recovery_done g m = record g { recovering = delete_key m g.recovering }

spawn_all : MountGuard → List Text → MountGuard × List Text
spawn_all g [] = (g, [])
spawn_all g (m ∷ ms) =
    let (g', started) = spawn_recovery g m in
    let (g'', out) = spawn_all g' ms in (g'', if started then m ∷ out else out)

-- One tick: the guard, the table and the recoveries that start.
pub check_once : Faults → List Text → MountGuard → Table → MountGuard × Table × List Text
check_once f mounts g t =
    let cur = to_mount_set mounts in
    let (t', next) = vanish f cur g.last_mounts t cur in
    let (t'', next', back) = appear f g.last_mounts cur t' next in
    let (g', started) = spawn_all g back in (record g' { last_mounts = next' }, t'', started)
