-- ===== src/MountGuard/Tick.antt =====
-- What a tick does to each row, and to the snapshot.
use nimo_os_photos.Prelude.{
  ◌≡◌, refl, ap, sym, ◌∙◌, Bool, true, false, ◌&&◌, ◌||◌, not, List, [], ◌∷◌, map, Text, text_eq,
  text_eq_iff, text_eq→≡, text_mem, any, if◌then◌else◌, map-map, map_cong, map_id, Bool-cases, inl,
  inr, arith,
}
use nimo_os_photos.Assets.{AssetRow, Table}
use nimo_os_photos.ScanRoots.{is_excluded_mount}
use nimo_os_photos.MountGuard.{
  MountGuard, Faults, under, set_offline, mark_offline, mark_online, vanish, appear, add_key,
  delete_key, to_mount_set, check_once,
}

-- Whether a list names a mount, that was not excused, whose directory holds the path.
unfoldable pub hit : (Text → Bool) → List Text → Text → Bool
hit skip ms path = any (λ m. not (skip m) && under path m) ms

-- A row put in the given state where the list has such a mount.
pub hit_row : Bool → (Text → Bool) → List Text → AssetRow → AssetRow
hit_row b skip ms r = if hit skip ms r.file_path then set_offline b r else r

-- The WHERE clause on the flag spares rows that have the value already.
pub set_spared :
    (u b : Bool) (r : AssetRow)
    → (if not r.offline && u then set_offline true r else r) ≡ (if u then set_offline true r else r)
set_spared u b r = ground arith

pub set_spared_on :
    (u : Bool) (r : AssetRow)
    → (if r.offline && u then set_offline false r else r) ≡ (if u then set_offline false r else r)
set_spared_on u r = ground arith

table-mark_offline :
    (present fault : Bool) (m : Text) (t : Table)
    → (if present then t else (mark_offline fault m t).0)
      ≡ map (λ r. if not (present || fault) && under r.file_path m then set_offline true r else r) t
unfolding mark_offline
table-mark_offline true fault m t = sym (map_id t)
table-mark_offline false true m t = sym (map_id t)
table-mark_offline false false m t = map_cong _ _ t (λ r. set_spared (under r.file_path m) true r)

table-mark_online :
    (known fault : Bool) (m : Text) (t : Table)
    → (if known then t else (mark_online fault m t).0)
      ≡ map (λ r. if not (known || fault) && under r.file_path m then set_offline false r else r) t
unfolding mark_online
table-mark_online true fault m t = sym (map_id t)
table-mark_online false true m t = sym (map_id t)
table-mark_online false false m t = map_cong _ _ t (λ r. set_spared_on (under r.file_path m) r)

hit_row-cons :
    (b : Bool) (skip : Text → Bool) (m : Text) (ms : List Text) (r : AssetRow)
    → hit_row b skip ms (if not (skip m) && under r.file_path m then set_offline b r else r)
      ≡ hit_row b skip (m ∷ ms) r
unfolding hit_row hit
hit_row-cons b skip m ms r = ground arith

table-vanish :
    (f : Faults) (cur ms : List Text) (t : Table) (next : List Text)
    → (vanish f cur ms t next).0 ≡ map (hit_row true (λ m. text_mem m cur || f.off m) ms) t
unfolding vanish hit_row hit
table-vanish f cur [] t next = sym (map_id t)
table-vanish f cur (m ∷ ms) t next =
    table-vanish f cur ms _ _
    ∙ rw (table-mark_offline (text_mem m cur) (f.off m) m t, map-map)
        (map_cong _ _ t (hit_row-cons true (λ n. text_mem n cur || f.off n) m ms))

table-appear :
    (f : Faults) (prev ms : List Text) (t : Table) (next : List Text)
    → (appear f prev ms t next).0 ≡ map (hit_row false (λ m. text_mem m prev || f.on m) ms) t
unfolding appear hit_row hit
table-appear f prev [] t next = sym (map_id t)
table-appear f prev (m ∷ ms) t next =
    table-appear f prev ms _ _
    ∙ rw (table-mark_online (text_mem m prev) (f.on m) m t, map-map)
        (map_cong _ _ t (hit_row-cons false (λ n. text_mem n prev || f.on n) m ms))

-- Equal strings pass the same tests.
same : (g : Text → Bool) (n m : Text) → text_eq n m ≡ true → g n ≡ g m
same g n m h = ap g (text_eq→≡ n m h)

mem-add_key :
    (m n : Text) (set : List Text) → text_mem m (add_key n set) ≡ (text_eq n m || text_mem m set)
unfolding add_key text_mem
mem-add_key m n set = elim (Bool-cases (text_mem n set)) [
  | inl e ↦ rw e (ground (arith, same (λ k. text_mem k set) n m))
  | inr e ↦ rw e
]

ok-mark_offline : (fault : Bool) (m : Text) (t : Table) → (mark_offline fault m t).1 ≡ not fault
unfolding mark_offline
ok-mark_offline true m t = refl
ok-mark_offline false m t = refl

ok-mark_online : (fault : Bool) (m : Text) (t : Table) → (mark_online fault m t).1 ≡ not fault
unfolding mark_online
ok-mark_online true m t = refl
ok-mark_online false m t = refl

mem-delete_key :
    (m n : Text) (set : List Text)
    → text_mem m (delete_key n set) ≡ (text_mem m set && not (text_eq n m))
unfolding delete_key text_mem
mem-delete_key m n [] = refl
mem-delete_key m n (k ∷ set) =
    ground (arith, text_eq_iff k n, text_eq_iff k m, text_eq_iff n m, mem-delete_key m n set)

-- A mount whose UPDATE failed stays in the snapshot.
mem-vanish :
    (f : Faults) (cur ms : List Text) (t : Table) (next : List Text) (m : Text)
    → text_mem m (vanish f cur ms t next).1
      ≡ (text_mem m next || (text_mem m ms && not (text_mem m cur) && f.off m))
unfolding vanish text_mem
mem-vanish f cur [] t next m = ground arith
mem-vanish f cur (n ∷ ms) t next m =
    rw (mem-vanish f cur ms _ _ m, ok-mark_offline)
      (ground (arith, mem-add_key m n next, same (λ k. text_mem k cur) n m, same f.off n m))

mem-appear :
    (f : Faults) (prev ms : List Text) (t : Table) (next : List Text) (m : Text)
    → text_mem m (appear f prev ms t next).1
      ≡ (text_mem m next && not (text_mem m ms && not (text_mem m prev) && f.on m))
unfolding appear text_mem
mem-appear f prev [] t next m = ground arith
mem-appear f prev (n ∷ ms) t next m =
    rw (mem-appear f prev ms _ _ m, ok-mark_online)
      (ground (arith, mem-delete_key m n next, same (λ k. text_mem k prev) n m, same f.on n m))

mem-to_mount_set :
    (m : Text) (ms : List Text)
    → text_mem m (to_mount_set ms) ≡ (text_mem m ms && not (is_excluded_mount m))
unfolding to_mount_set text_mem
mem-to_mount_set m [] = refl
mem-to_mount_set m (n ∷ ms) =
    ground
      (arith, mem-to_mount_set m ms, mem-add_key m n (to_mount_set ms), same is_excluded_mount n m)

-- What a tick makes of a row.
unfoldable pub tick_row : Faults → List Text → List Text → AssetRow → AssetRow
tick_row f prev cur r =
    if hit (λ m. text_mem m prev || f.on m) cur r.file_path
    then set_offline false r
    else if hit (λ m. text_mem m cur || f.off m) prev r.file_path
    then set_offline true r
    else r

hit_rows :
    (f : Faults) (prev cur : List Text) (r : AssetRow)
    → hit_row false
        (λ m. text_mem m prev || f.on m)
        cur
        (hit_row true (λ m. text_mem m cur || f.off m) prev r)
      ≡ tick_row f prev cur r
unfolding hit_row tick_row
hit_rows f prev cur r = ground arith

-- A tick brings back online exactly the rows under a mount that has newly appeared and whose UPDATE
-- succeeds, takes offline exactly the other rows under a mount that has vanished and whose UPDATE
-- succeeds, and leaves each other row. The next snapshot differs from the current mounts by the
-- transitions whose UPDATE failed, which are so tried again.
pub check_once_exact :
    (f : Faults) (mounts : List Text) (g : MountGuard) (t : Table) (m : Text)
    → let cur = to_mount_set mounts in
      let prev = g.last_mounts in
      let (g', t', started) = check_once f mounts g t in
      (t' ≡ map (tick_row f prev cur) t)
      × (text_mem m g'.last_mounts ≡ (
          if text_mem m cur then text_mem m prev || not (f.on m) else text_mem m prev && f.off m))
unfolding check_once
check_once_exact f mounts g t m =
    let cur = to_mount_set mounts in
    (
      rw (table-appear, table-vanish, map-map) (map_cong _ _ t (hit_rows f g.last_mounts cur)),
      rw (mem-appear, mem-vanish) (ground arith),
    )
