-- ===== src/ScanRoots/Volume.antt =====
-- The volume root chosen for a file.
use nimo_os_photos.Prelude.{
  ◌≤◌, ◌≡◌, refl, true, ◌||◌, not, List, [], ◌∷◌, map, Text, text_eq_refl, trim_slashes, text_mem,
  length, All, leb, ◌⊎◌, inl, inr, ◌∙◌, arith,
}
use nimo_os_photos.ScanRoots.{lives_under, better, volume_from, volume_root_for_path}

-- The root is the empty string, or covers the path and stands among the given ones.
abbrev pub Candidate : Text → List Text → Text → Type 0
Candidate path roots best =
    (best ≡ []) ⊎ ((lives_under path best ≡ true) × (text_mem best (map trim_slashes roots) ≡ true))

-- A given root that covers the path is no longer than the one chosen.
abbrev pub NoLonger : Text → Text → Text → Type 0
NoLonger path best r =
    (not (lives_under path (trim_slashes r)) || leb (length (trim_slashes r)) (length best)) ≡ true

better_bounds :
    (path best r : Text)
    → (length best ≤ length (better path best r))
      × ((not (lives_under path r) || leb (length r) (length (better path best r))) ≡ true)
      × ((better path best r ≡ best) ⊎ ((better path best r ≡ r) × (lives_under path r ≡ true)))
unfolding better
better_bounds path best [] = ground arith
better_bounds path best (c ∷ r) = ground arith

volume_from-longer :
    (path best : Text) (roots : List Text) → length best ≤ length (volume_from path best roots)
unfolding volume_from
volume_from-longer path best [] = omega arith
volume_from-longer path best (r ∷ rs) = omega (
  arith,
  (better_bounds path best (trim_slashes r)).0,
  volume_from-longer path (better path best (trim_slashes r)) rs,
)

volume_from-NoLonger :
    (path best : Text) (roots : List Text) → All (NoLonger path (volume_from path best roots)) roots
unfolding volume_from
volume_from-NoLonger path best [] = tt
volume_from-NoLonger path best (r ∷ rs) = (
  ground (
    arith,
    better_bounds path best (trim_slashes r),
    volume_from-longer path (better path best (trim_slashes r)) rs,
  ),
  volume_from-NoLonger path (better path best (trim_slashes r)) rs,
)

volume_from-Candidate :
    (path best : Text) (roots : List Text)
    → (volume_from path best roots ≡ best) ⊎ Candidate path roots (volume_from path best roots)
unfolding volume_from text_mem
volume_from-Candidate path best [] = inl refl
volume_from-Candidate path best (r ∷ rs) =
    elim (volume_from-Candidate path (better path best (trim_slashes r)) rs) [
      | inl e ↦ elim ((better_bounds path best (trim_slashes r)).2) [
        | inl f ↦ inl (e ∙ f)
        | inr (f, u) ↦ inr (inr (rw (e ∙ f) u, rw (e ∙ f, text_eq_refl)))
      ]
      | inr (inl z) ↦ inr (inl z)
      | inr (inr (u, m)) ↦ inr (inr (u, rw m (ground arith)))
    ]

-- The volume root of a path is empty, or it is one of the given roots (trimmed of slashes) and the
-- path lives under it; and every given root that the path lives under is no longer.
volume_root_longest :
    (path : Text) (roots : List Text)
    → Candidate path roots (volume_root_for_path path roots)
      × All (NoLonger path (volume_root_for_path path roots)) roots
unfolding volume_root_for_path
volume_root_longest path roots = (joined, volume_from-NoLonger path [] roots)
  where
    joined : Candidate path roots (volume_from path [] roots)
    joined = elim (volume_from-Candidate path [] roots) [ inl e ↦ inl e | inr c ↦ c ]
