-- ===== src/Rerun/Examples.antt =====
-- Schedules of two calls.
use nimo_os_photos.Prelude.{◌<◌, ◌≡◌, ◌⊎◌, refl, true, false, List, [], ◌∷◌}
use nimo_os_photos.Rerun.{returned, next, advance, Event, call, move, run, idle}
use nimo_os_photos.Rerun.Kept.{Begins, trigger_kept}

-- The first call begins a pass, and the second finds it.
abbrev pub found_pass : List Event
found_pass = call ∷ move 0 true ∷ call ∷ move 0 true ∷ []

-- The second call has set the flag.
abbrev pub merged_call : List Event
merged_call = call ∷ move 0 true ∷ call ∷ move 0 true ∷ move 0 true ∷ []

abbrev pub pass_ends : List Event
pass_ends = move 1 true ∷ call ∷ []

trigger_kept_example :
    let v = run (move 0 true ∷ pass_ends) (run found_pass idle) in
    (1 < v.guard.passes) ⊎ ((v.guard.running ≡ true) × Begins v)
unfolding run advance next
trigger_kept_example = trigger_kept found_pass pass_ends 0 refl refl refl

-- A pass that fails leaves the flag set and nobody to check it.
failed_pass : run (move 1 false ∷ move 1 true ∷ []) (run merged_call idle) ≡ record {
  routines = returned ∷ returned ∷ [];
  guard = record { running = false; rerun_pending = true; passes = 1 };
}
unfolding run advance next
failed_pass = refl

-- A pass that succeeds is followed by another.
second_pass :
    (run
      (move 1 true ∷ move 1 true ∷ move 1 true ∷ move 1 true ∷ move 1 true ∷ [])
      (run merged_call idle)).guard
    ≡ record { running = false; rerun_pending = false; passes = 2 }
unfolding run advance next
second_pass = refl
