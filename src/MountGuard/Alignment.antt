-- ===== src/MountGuard/Alignment.antt =====
-- The flag offline against the mounts that are there: after startup, and over the ticks.
use nimo_os_photos.Prelude.{
  ◌≡◌, refl, ap, sym, ◌∙◌, Bool, true, false, ◌&&◌, ◌||◌, not, List, [], ◌∷◌, map, Text, text,
  text_eq, text_eq_refl, text_eq→≡, text_mem, has_prefix, any, All, if◌then◌else◌, map-map,
  map_cong, map_id, Bool-cases, inl, inr, arith,
}
use nimo_os_photos.Assets.{AssetRow, Table}
use nimo_os_photos.ScanRoots.{excluded_mount_prefixes}
use nimo_os_photos.MountGuard.{
  MountGuard, Faults, under, set_offline, outside, mark_online, mark_offline_outside, online_all,
  align_with, to_mount_set, check_once,
}
use nimo_os_photos.MountGuard.Tick.{hit, tick_row, check_once_exact}

abbrev pub no_faults : Faults
no_faults = record { off = λ m. false; on = λ m. false; outside = false }

-- Some mount of the list holds the path.
abbrev pub covered : List Text → Text → Bool
covered ms path = any (λ m. under path m) ms

-- The rows that the guard looks after: under /media/ and not under an excluded prefix.
abbrev pub tracked : AssetRow → Bool
tracked r =
    has_prefix r.file_path (text "/media/")
    && not (any (λ p. has_prefix r.file_path p) excluded_mount_prefixes)

abbrev differ : Bool → Bool → Bool
differ true b = not b
differ false b = b

-- A tracked row is offline exactly if no mount of the list holds it.
abbrev pub aligned : List Text → AssetRow → Bool
aligned ms r = not (tracked r) || differ r.offline (covered ms r.file_path)

-- A vanished mount and one that stays both hold the path: mounts nested in one another.
unfoldable pub overlaps : List Text → List Text → Text → Bool
overlaps prev cur path =
    any (λ m. not (text_mem m cur) && under path m) prev
    && any (λ m. text_mem m prev && under path m) cur

any_of_mem :
    (q : Text → Bool) (m : Text) (b : List Text) → text_mem m b ≡ true → q m ≡ true → any q b ≡ true
unfolding text_mem
any_of_mem q m [] h k = h
any_of_mem q m (n ∷ b) h k = elim (Bool-cases (text_eq n m)) [
  | inl e ↦ rw (ap q (text_eq→≡ n m e) ∙ k)
  | inr e ↦ rw (any_of_mem q m b (rw e at h) k) (ground arith)
]

mem_of_any :
    (q : Text → Bool) (a : List Text)
    → any q a ≡ true
    → (m : Text) × (text_mem m a ≡ true) × (q m ≡ true)
unfolding text_mem
mem_of_any q [] h = absurd (cc h)
mem_of_any q (n ∷ a) h = elim (Bool-cases (q n)) [
  | inl e ↦ (n, rw text_eq_refl, e)
  | inr e ↦ let (m, i, k) = mem_of_any q a (rw e at h) in (m, rw i (ground arith), k)
]

antisymmetric : (a b : Bool) → (a ≡ true → b ≡ true) → (b ≡ true → a ≡ true) → a ≡ b
antisymmetric true b f g = sym (f refl)
antisymmetric false true f g = g refl
antisymmetric false false f g = refl

common_imp :
    (p : Text → Bool) (a b : List Text)
    → any (λ m. text_mem m b && p m) a ≡ true
    → any (λ m. text_mem m a && p m) b ≡ true
common_imp p a b h =
    let (m, i, k) = mem_of_any (λ m. text_mem m b && p m) a h in
    any_of_mem (λ m. text_mem m a && p m) m b (ground arith) (ground arith)

-- The common members of two lists, from either side.
common :
    (p : Text → Bool) (a b : List Text)
    → any (λ m. text_mem m b && p m) a ≡ any (λ m. text_mem m a && p m) b
common p a b = antisymmetric _ _ (common_imp p a b) (common_imp p b a)

any_split :
    (c p : Text → Bool) (a : List Text)
    → any p a ≡ (any (λ m. not (c m) && p m) a || any (λ m. c m && p m) a)
any_split c p [] = refl
any_split c p (m ∷ a) = ground (arith, any_split c p a)

any_skip :
    (c p : Text → Bool) (a : List Text)
    → any (λ m. not (c m || false) && p m) a ≡ any (λ m. not (c m) && p m) a
any_skip c p [] = refl
any_skip c p (m ∷ a) = ground (arith, any_skip c p a)

tick_row-offline :
    (prev cur : List Text) (r : AssetRow)
    → let path = r.file_path in
      (tick_row no_faults prev cur r).offline ≡ (
        if any (λ m. not (text_mem m prev) && under path m) cur
        then false
        else any (λ m. not (text_mem m cur) && under path m) prev || r.offline)
unfolding tick_row hit
tick_row-offline prev cur r = ground (
  arith,
  any_skip (λ m. text_mem m prev) (under r.file_path) cur,
  any_skip (λ m. text_mem m cur) (under r.file_path) prev,
)

file_path-tick_row :
    (f : Faults) (prev cur : List Text) (r : AssetRow)
    → (tick_row f prev cur r).file_path ≡ r.file_path
unfolding tick_row
file_path-tick_row f prev cur r = ground arith

row_aligned :
    (prev cur : List Text) (r : AssetRow)
    → aligned prev r ≡ true
    → overlaps prev cur r.file_path ≡ false
    → aligned cur (tick_row no_faults prev cur r) ≡ true
unfolding overlaps
row_aligned prev cur r h o =
    rw (tick_row-offline, file_path-tick_row)
      (ground (
        arith,
        any_split (λ m. text_mem m prev) (under r.file_path) cur,
        any_split (λ m. text_mem m cur) (under r.file_path) prev,
        common (under r.file_path) prev cur,
      ))

All-map :
    (P Q O : AssetRow → Type 0) (f : AssetRow → AssetRow)
    → ((r : AssetRow) → P r → O r → Q (f r))
    → (t : Table) → All P t
    → All O t
    → All Q (map f t)
All-map P Q O f step [] h o = tt
All-map P Q O f step (r ∷ t) h o = (step r h.0 o.0, All-map P Q O f step t h.1 o.1)

-- A tick without failures keeps the flags right: if every row agrees with the mounts of the last
-- snapshot, and no mount that vanished is nested with one that stayed over a row's path, then every
-- row agrees with the current mounts.
pub check_once-aligned :
    (mounts : List Text) (g : MountGuard) (t : Table)
    → All (λ r. aligned g.last_mounts r ≡ true) t
    → All (λ r. overlaps g.last_mounts (to_mount_set mounts) r.file_path ≡ false) t
    → All (λ r. aligned (to_mount_set mounts) r ≡ true) (check_once no_faults mounts g t).1
check_once-aligned mounts g t h o = rw (check_once_exact no_faults mounts g t []).0 (
    All-map _ _ _ (tick_row no_faults g.last_mounts (to_mount_set mounts))
      (row_aligned g.last_mounts (to_mount_set mounts)) t h o)

-- With nested mounts it is not so: when a mount vanishes while another one that was there before
-- stays and holds the same path, and no newly appeared mount holds it, the row is taken offline
-- although a current mount holds it.
pub nested_goes_offline :
    (mounts : List Text) (g : MountGuard) (r : AssetRow)
    → overlaps g.last_mounts (to_mount_set mounts) r.file_path ≡ true
    → any (λ m. not (text_mem m g.last_mounts) && under r.file_path m) (to_mount_set mounts) ≡ false
    → (covered (to_mount_set mounts) r.file_path ≡ true)
      × (All (λ q. q.offline ≡ true) (check_once no_faults mounts g (r ∷ [])).1)
unfolding overlaps
nested_goes_offline mounts g r o n =
    let cur = to_mount_set mounts in
    let split = any_split (λ m. text_mem m g.last_mounts) (under r.file_path) cur in
    (
      ground (arith, split),
      rw (check_once_exact no_faults mounts g (r ∷ []) []).0
          (rw tick_row-offline (ground arith), tt),
    )

-- The row after the UPDATEs of the present mounts.
online_row : List Text → AssetRow → AssetRow
online_row ms r = if covered ms r.file_path then set_offline false r else r

table-online_all :
    (ms : List Text) (t : Table) → online_all (λ m. false) ms t ≡ map (online_row ms) t
unfolding online_all mark_online online_row
table-online_all [] t = sym (map_id t)
table-online_all (m ∷ ms) t =
    table-online_all ms (mark_online false m t).0
    ∙ map-map (online_row ms) _ t
    ∙ map_cong _ _ t (λ r. ground arith)

outside_row : List Text → AssetRow → AssetRow
outside_row cur r = if outside cur r then set_offline true r else r

started_row :
    (cur : List Text) (r : AssetRow) → aligned cur (outside_row cur (online_row cur r)) ≡ true
unfolding outside_row online_row
started_row cur r = ground arith

All-map_any :
    (Q : AssetRow → Type 0) (f : AssetRow → AssetRow)
    → ((r : AssetRow) → Q (f r))
    → (t : Table) → All Q (map f t)
All-map_any Q f h [] = tt
All-map_any Q f h (r ∷ t) = (h r, All-map_any Q f h t)

-- The startup alignment makes every row agree with the mounts, whatever the flags were.
align_with-aligned :
    (cur : List Text) (t : Table) → All (λ r. aligned cur r ≡ true) (align_with no_faults cur t)
unfolding align_with mark_offline_outside outside_row
align_with-aligned cur t =
    rw (table-online_all, map-map)
      (All-map_any _ (λ r. outside_row cur (online_row cur r)) (started_row cur) t)
