-- ===== src/Backfill/Gate/Examples.antt =====
-- Runs of the gate.
use nimo_os_photos.Prelude.{
  ℕ, ◌+◌, ◌≤◌, ◌≡◌, ◌⊎◌, refl, some, Text, text, text_Eq, text_eq, lookup, insert,
}
use nimo_os_photos.Backfill.Gate.{chain_of, put, run, run_chain, complete, new_backfill_gate}
use nimo_os_photos.Backfill.Gate.Invariant.{Spaced}
use nimo_os_photos.Backfill.Gate.Schedule.{
  count, starts_of, World, initial, enter, Reach, here, next, triggers, passes,
}
use nimo_os_photos.Backfill.Gate.Exclusion.{
  at_most_one_running, starts-Spaced, Awaits, pending_not_lost,
}

abbrev clip_chain : Text
clip_chain = text "post-batch"

-- The chain is triggered at time 0, with an interval of 10, and again at time 3.
abbrev leading : World ℕ
leading = enter (initial 10) clip_chain (run 0 clip_chain 7 (initial 10).gate)

abbrev later : World ℕ
later = record leading { clock = leading.clock + 3 }

abbrev merged : World ℕ
merged = enter later clip_chain (run later.clock clip_chain 8 later.gate)

later-Reach : Reach (initial 10) later
unfolding initial
later-Reach = next (next here (triggers (initial 10) clip_chain 7)) (passes leading 3)

merged-Reach : Reach (initial 10) merged
merged-Reach = next later-Reach (triggers later clip_chain 8)

merged_pending : (chain_of merged.gate clip_chain).pending_fn ≡ some 8
unfolding initial new_backfill_gate chain_of put run run_chain enter lookup insert text_eq
merged_pending = refl

at_most_one_running_example : count clip_chain merged.running ≤ 1
at_most_one_running_example = at_most_one_running 10 merged-Reach clip_chain

starts-Spaced_example : Spaced 10 (starts_of clip_chain merged.starts)
starts-Spaced_example = starts-Spaced 10 merged-Reach clip_chain

pending_not_lost_example :
    ((count clip_chain merged.running ≡ 0)
      × Awaits 10 merged.clock 8 (chain_of merged.gate clip_chain))
    ⊎ ((count clip_chain merged.running ≡ 1)
        × Awaits 10 merged.clock 8
            (chain_of (complete merged.clock clip_chain merged.gate) clip_chain))
pending_not_lost_example = pending_not_lost 10 merged-Reach clip_chain 8 merged_pending
