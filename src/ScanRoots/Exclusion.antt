-- ===== src/ScanRoots/Exclusion.antt =====
-- The scan roots that come out of the mount table.
use nimo_os_photos.Prelude.{
  ◌≡◌, refl, sym, ◌∙◌, Bool, true, false, ◌||◌, Option, none, some, List, [], ◌∷◌, Text, text,
  text_eq, text_eq_iff, text_eq→≡, has_prefix, text_lt, text_mem, any, ◌⊎◌, inl, inr, Bool-cases,
  split, arith,
}
use nimo_os_photos.ScanRoots.{
  is_user_partition, is_excluded_mount, is_in_snapshots_dir, system_mounts, root_of_fields, fields,
  add_sorted, add_root, collect_roots, parse_scan_roots, unescape_mount,
}

-- Strictly rising strings, so none stands twice.
abbrev pub Rising : List Text → Type 0
Rising [] = Unit
Rising (s ∷ []) = Unit
Rising (s ∷ t ∷ ts) = (text_lt s t ≡ true) × Rising (t ∷ ts)

text_lt_total : (s t : Text) → text_eq s t ≡ false → text_lt s t ≡ false → text_lt t s ≡ true
unfolding text_eq text_lt
text_lt_total [] [] p q = cc p
text_lt_total [] (c ∷ t) p q = cc q
text_lt_total (b ∷ s) [] p q = refl
text_lt_total (b ∷ s) (c ∷ t) p q = ground (arith, text_lt_total s t)

add_sorted-Rising : (s : Text) (ts : List Text) → Rising ts → Rising (add_sorted s ts)
unfolding add_sorted
add_sorted-Rising s [] h = tt
add_sorted-Rising s (t ∷ []) h = ground (arith, text_lt_total s t)
add_sorted-Rising s (t ∷ u ∷ ts) h =
    ground (arith, text_lt_total s t, add_sorted-Rising s (u ∷ ts) h.1)

mem-add_sorted :
    (r s : Text) (ts : List Text) → text_mem r (add_sorted s ts) ≡ (text_eq s r || text_mem r ts)
unfolding add_sorted text_mem
mem-add_sorted r s [] = refl
mem-add_sorted r s (t ∷ ts) =
    ground (arith, text_eq_iff s t, text_eq_iff s r, text_eq_iff t r, mem-add_sorted r s ts)

-- A line names a root.
abbrev pub names_root : Text → Option Text → Bool
names_root r none = false
names_root r (some mp) = text_eq mp r

abbrev pub line_names : Text → Text → Bool
line_names r line = names_root r (root_of_fields (fields line))

mem-add_root :
    (r : Text) (o : Option Text) (roots : List Text)
    → text_mem r (add_root o roots) ≡ (names_root r o || text_mem r roots)
unfolding add_root
mem-add_root r none roots = refl
mem-add_root r (some mp) roots = mem-add_sorted r mp roots

mem-collect_roots :
    (r : Text) (roots lines : List Text)
    → text_mem r (collect_roots roots lines) ≡ (text_mem r roots || any (line_names r) lines)
unfolding collect_roots
mem-collect_roots r roots [] = ground arith
mem-collect_roots r roots (line ∷ lines) =
    rw (mem-collect_roots r (add_root (root_of_fields (fields line)) roots) lines, mem-add_root)
      (ground arith)

add_root-Rising : (o : Option Text) (roots : List Text) → Rising roots → Rising (add_root o roots)
unfolding add_root
add_root-Rising none roots h = h
add_root-Rising (some mp) roots h = add_sorted-Rising mp roots h

collect_roots-Rising : (roots lines : List Text) → Rising roots → Rising (collect_roots roots lines)
unfolding collect_roots
collect_roots-Rising roots [] h = h
collect_roots-Rising roots (line ∷ lines) h =
    collect_roots-Rising (add_root (root_of_fields (fields line)) roots) lines
      (add_root-Rising (root_of_fields (fields line)) roots h)

-- The scan roots are exactly /DATA and the roots that the lines of the mount table name, in strictly
-- rising order.
pub parse_scan_roots_lines :
    (mounts r : Text)
    → (text_mem r (parse_scan_roots mounts)
        ≡ (text_eq (text "/DATA") r || any (line_names r) (split 10 mounts)))
      × Rising (parse_scan_roots mounts)
unfolding parse_scan_roots text_mem
parse_scan_roots_lines mounts r = (
  mem-collect_roots r (text "/DATA" ∷ []) (split 10 mounts) ∙ ground arith,
  collect_roots-Rising (text "/DATA" ∷ []) (split 10 mounts) tt,
)

-- A user partition that is not excluded.
abbrev pub Allowed : Text → Type 0
Allowed r = (is_user_partition r ≡ true) × (is_excluded_mount r ≡ false)

is_user_partition-Allowed : (r : Text) → is_user_partition r ≡ true → Allowed r
unfolding is_user_partition
is_user_partition-Allowed r h = elim (Bool-cases (is_excluded_mount r)) [
  | inl e ↦ absurd (cc (rw e at h))
  | inr e ↦ (h, e)
]

root_of_fields-Allowed :
    (fs : List Text) (r : Text) → names_root r (root_of_fields fs) ≡ true → Allowed r
unfolding root_of_fields
root_of_fields-Allowed [] r h = absurd (cc h)
root_of_fields-Allowed (dev ∷ []) r h = absurd (cc h)
root_of_fields-Allowed (dev ∷ mp ∷ []) r h = absurd (cc h)
root_of_fields-Allowed (dev ∷ mp ∷ fs ∷ rest) r h =
    is_user_partition-Allowed r (ground (arith, text_eq_iff (unescape_mount mp) r))

lines-Allowed : (r : Text) (lines : List Text) → any (line_names r) lines ≡ true → Allowed r
lines-Allowed r [] h = absurd (cc h)
lines-Allowed r (line ∷ lines) h = elim (Bool-cases (line_names r line)) [
  | inl e ↦ root_of_fields-Allowed (fields line) r e
  | inr e ↦ lines-Allowed r lines (rw e at h)
]

-- Every scan root other than /DATA is a mount under /media or /mnt that is no system mount, not under
-- /media/devmon and not inside a .snapshots directory.
parse_scan_roots_allowed :
    (mounts r : Text)
    → text_mem r (parse_scan_roots mounts) ≡ true
    → (r ≡ text "/DATA")
      ⊎ ((has_prefix r (text "/media/") || has_prefix r (text "/mnt/") ≡ true)
          × (text_mem r system_mounts ≡ false)
          × (has_prefix r (text "/media/devmon/") ≡ false)
          × (is_in_snapshots_dir r ≡ false))
parse_scan_roots_allowed mounts r h = elim (Bool-cases (text_eq (text "/DATA") r)) [
  | inl e ↦ inl (sym (text_eq→≡ _ r e))
  | inr e ↦ inr (
      unfold is_user_partition is_excluded_mount in
      ground (
        arith,
        lines-Allowed r (split 10 mounts) (rw ((parse_scan_roots_lines mounts r).0, e) at h),
      ))
]
