-- ===== src/Trips/Segments.antt =====
-- The segments tile the photos, and are cut exactly at the wide gaps.
use nimo_os_photos.Prelude.{
  ℕ, suc, ◌+◌, ◌-◌, ◌*◌, ◌≤◌, ◌<◌, ◌≡◌, ◌∙◌, ap, Bool, true, false, ◌&&◌, List, [], ◌∷◌, any,
  length, ltb, leb, ◌==◌, arith, if◌then◌else◌, Bool-cases, inl, inr,
}
use nimo_os_photos.Trips.{TripSegment, split_from, split_by_gap}

-- The segments follow on one another from an index up to the last photo, and none is empty.
abbrev pub tiles : ℕ → ℕ → List TripSegment → Bool
tiles from n [] = from == n
tiles from n (s ∷ segs) = s.start == from && leb s.start s.end && tiles (suc s.end) n segs

-- A segment ends at the index.
abbrev pub ends_at : ℕ → List TripSegment → Bool
ends_at j segs = any (λ s. s.end == j) segs

-- The photo at the index is followed by one that was taken more than the gap later, or by none.
abbrev pub last_before_gap : ℕ → ℕ → List ℕ → Bool
last_before_gap gap j [] = false
last_before_gap gap j (t ∷ []) = j == 0
last_before_gap gap j (t ∷ u ∷ times) =
    let later = last_before_gap gap (j - 1) (u ∷ times) in if j == 0 then ltb gap (u - t) else later

tiles-split_from :
    (gap start end prev : ℕ) (times : List ℕ)
    → start ≤ end
    → tiles start (suc end + length times) (split_from gap start end prev times) ≡ true
unfolding split_from
tiles-split_from gap start end prev [] h = ground arith
tiles-split_from gap start end prev (t ∷ times) h = ground (
  arith,
  tiles-split_from gap (suc end) (suc end) t times,
  tiles-split_from gap start (suc end) t times,
)

ends_at-before :
    (gap start end prev j : ℕ) (times : List ℕ)
    → j < end
    → ends_at j (split_from gap start end prev times) ≡ false
unfolding split_from
ends_at-before gap start end prev j [] h = ground arith
ends_at-before gap start end prev j (t ∷ times) h = ground (
  arith,
  ends_at-before gap (suc end) (suc end) t j times,
  ends_at-before gap start (suc end) t j times,
)

minus_zero : (i : ℕ) → i - 0 ≡ i
minus_zero i = omega arith

sub_suc : (i end : ℕ) → i - end - 1 ≡ i - suc end
sub_suc i end = omega arith

ends_at-split_from :
    (gap start end prev i : ℕ) (times : List ℕ)
    → end ≤ i
    → ends_at i (split_from gap start end prev times) ≡ last_before_gap gap (i - end) (prev ∷ times)
unfolding split_from
ends_at-split_from gap start end prev i [] h = ground arith
ends_at-split_from gap start end prev i (t ∷ times) h = elim (Bool-cases (i == end)) [
  | inl e ↦ ground (
    arith,
    e,
    ends_at-before gap (suc end) (suc end) t i times,
    ends_at-before gap start (suc end) t i times,
  )
  | inr e ↦ rw (sub_suc i end) (
      ground (
        arith,
        e,
        ends_at-split_from gap (suc end) (suc end) t i times,
        ends_at-split_from gap start (suc end) t i times,
      ))
]

-- The segments of photos, at least one, follow on one another from the first photo to the last, none
-- empty; and one ends at a photo exactly if the photo is the last one or the next one was taken more
-- than the given number of days later.
pub split_by_gap_exact :
    (t j gap_days : ℕ) (times : List ℕ)
    → (tiles 0 (suc (length times)) (split_by_gap (t ∷ times) gap_days) ≡ true)
      × (ends_at j (split_by_gap (t ∷ times) gap_days)
          ≡ last_before_gap (gap_days * 86_400_000_000_000) j (t ∷ times))
unfolding split_by_gap
split_by_gap_exact t j gap_days times = (
  ground (arith, tiles-split_from (gap_days * 86_400_000_000_000) 0 0 t times),
  ends_at-split_from (gap_days * 86_400_000_000_000) 0 0 t j times (omega arith)
      ∙ ap (λ k. last_before_gap (gap_days * 86_400_000_000_000) k (t ∷ times)) (minus_zero j),
)
