-- ===== src/Trips.antt =====
-- splitByGap of service/moments_trip.go: the candidate photos, in the order of their times, are cut
-- into trips where two neighbours are more than some days apart. The rest of the trip engine is left
-- out. Times are nanoseconds.
pub mod Segments
mod Examples
use nimo_os_photos.Prelude.{ℕ, suc, ◌+◌, ◌-◌, ◌*◌, Bool, List, [], ◌∷◌, ltb, if◌then◌else◌}

-- The indices of the first and the last photo.
pub record TripSegment : Type 0 where
  pub start : ℕ
  pub end : ℕ

-- The segments from the current one on, which goes from `start` to `end` so far; its last photo was
-- taken at `prev`.
split_from : ℕ → ℕ → ℕ → ℕ → List ℕ → List TripSegment
split_from gap start end prev [] = record { start = start; end = end } ∷ []
split_from gap start end prev (t ∷ times) =
    let wide = ltb gap (t - prev) in
    let later = split_from gap (if wide then suc end else start) (suc end) t times in
    if wide then record { start = start; end = end } ∷ later else later

pub split_by_gap : List ℕ → ℕ → List TripSegment
split_by_gap [] gap_days = []
split_by_gap (t ∷ times) gap_days = split_from (gap_days * 86_400_000_000_000) 0 0 t times
