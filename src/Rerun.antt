-- ===== src/Rerun.antt =====
-- service/embedder.go: the guard of Backfill against concurrent calls, which BackfillOCR,
-- BackfillDocVerdicts and BackfillAesthetic repeat, as does Backfill of service/captionfeed.go. Each atomic
-- operation is a step of a goroutine, and a schedule says who moves.
pub mod Kept
mod Examples
use nimo_os_photos.Prelude.{ℕ, zero, suc, ◌+◌, Bool, true, false, List, [], ◌∷◌, if◌then◌else◌}

-- Where a goroutine stands in Backfill: before the CompareAndSwap of running, before the Store after it
-- failed, in backfillOnce, before the CompareAndSwap of rerunPending, before the deferred Store, after it.
pub data Phase : Type 0 where
  enters : Phase
  refused : Phase
  passing : Phase
  passed : Phase
  leaving : Phase
  returned : Phase

-- The flags running and rerunPending of an Embedder, with the number of calls of backfillOnce so far.
pub record Guard : Type 0 where
  pub running : Bool
  pub rerun_pending : Bool
  pub passes : ℕ

abbrev pub begin_pass : Guard → Guard
begin_pass g = record g { running = true; passes = g.passes + 1 }

-- The next atomic operation of a goroutine; `ok` is whether backfillOnce returns nil.
unfoldable pub next : Bool → Phase → Guard → Phase × Guard
next ok enters g = if g.running then (refused, g) else (passing, begin_pass g)
next ok refused g = (returned, record g { rerun_pending = true })
next ok passing g = (if ok then passed else leaving, g)
next ok passed g =
    if g.rerun_pending
    then (passing, record g { rerun_pending = false; passes = g.passes + 1 })
    else (leaving, g)
next ok leaving g = (returned, record g { running = false })
next ok returned g = (returned, g)

-- The goroutines, the newest first.
pub record World : Type 0 where
  pub routines : List Phase
  pub guard : Guard

abbrev pub first_to : Phase → World → World
first_to p w = record w { routines = p ∷ w.routines }

abbrev pub replace_first : List Phase → Phase × Guard → World
replace_first ps r = record { routines = r.0 ∷ ps; guard = r.1 }

unfoldable pub advance : ℕ → Bool → List Phase → Guard → World
advance i ok [] g = record { routines = []; guard = g }
advance zero ok (p ∷ ps) g = replace_first ps (next ok p g)
advance (suc i) ok (p ∷ ps) g = first_to p (advance i ok ps g)

-- A new goroutine calls Backfill, or the one of a number makes its next operation.
pub data Event : Type 0 where
  call : Event
  move : ℕ → Bool → Event

abbrev pub after : Event → World → World
after call w = first_to enters w
after (move i ok) w = advance i ok w.routines w.guard

unfoldable pub run : List Event → World → World
run [] w = w
run (e ∷ es) w = run es (after e w)

abbrev pub idle : World
idle = record {
  routines = [];
  guard = record { running = false; rerun_pending = false; passes = 0 };
}
