-- ===== src/Backfill/Gate.antt =====
-- service/backfillgate.go: the gate that throttles named backfill chains.
-- Each critical section of the source (what runs between g.mu.Lock and g.mu.Unlock) is one function
-- here. Time is nanoseconds of Go's monotonic clock, and `none` is the zero time of `lastRun`.
pub mod Invariant
pub mod Schedule
pub mod Exclusion
mod Examples
use nimo_os_photos.Prelude.{
  ℕ, ◌+◌, ◌-◌, Bool, true, false, ◌&&◌, ◌||◌, not, Option, none, some, List, [], Text, lookup,
  insert, ltb, is_some, if◌then◌else◌, text_Eq,
}

-- A `func()` is a value of the parameter F; `timer` is the time at which it is due.
pub record GatedChain {ℓ} (F : Type ℓ) : Type ℓ where
  pub last_run : Option ℕ
  pub pending_fn : Option F
  pub timer : Option ℕ
  pub in_flight : Bool

pub record BackfillGate {ℓ} (F : Type ℓ) : Type ℓ where
  pub min : ℕ
  pub chains : List (Text × GatedChain F)

-- now.Sub(lastRun) < min, and !lastRun.IsZero().
abbrev pub within_window : ℕ → ℕ → Option ℕ → Bool
within_window min now none = false
within_window min now (some t) = ltb (now - t) min

-- max(0, min - now.Sub(lastRun)): the zero time is further back than any interval.
abbrev pub delay_until : ℕ → ℕ → Option ℕ → ℕ
delay_until min now none = 0
delay_until min now (some t) = min - (now - t)

module _ {ℓ} {F : Type ℓ} where
  pub new_backfill_gate : ℕ → BackfillGate F
  new_backfill_gate m = record { min = m; chains = [] }

  abbrev pub new_chain : GatedChain F
  new_chain = record { last_run = none; pending_fn = none; timer = none; in_flight = false }

  abbrev or_new : Option (GatedChain F) → GatedChain F
  or_new none = new_chain
  or_new (some c) = c

  pub chain_of : BackfillGate F → Text → GatedChain F
  chain_of g name = or_new (lookup name g.chains)

  pub put : BackfillGate F → Text → GatedChain F → BackfillGate F
  put g name c = record g { chains = insert name c g.chains }

  -- The body of Run on one chain: the new chain, and the function to run now if there is one.
  pub run_chain : ℕ → ℕ → F → GatedChain F → GatedChain F × Option F
  run_chain min now fn c =
      let within = within_window min now c.last_run in
      let merged : GatedChain F = record c { pending_fn = some fn } in
      let armed : GatedChain F = record merged {
        timer = some (now + delay_until min now c.last_run);
      } in
      if c.in_flight || is_some c.timer || within
      then (if not (is_some c.timer) && not c.in_flight && within then armed else merged, none)
      else (record c { last_run = some now; in_flight = true }, some fn)

  pub run : ℕ → Text → F → BackfillGate F → BackfillGate F × Option F
  run now name fn g =
      let (c, start) = run_chain g.min now fn (chain_of g name) in (put g name c, start)

  pub complete_chain : ℕ → ℕ → GatedChain F → GatedChain F
  complete_chain min now c =
      let done : GatedChain F = record c { in_flight = false } in
      if is_some c.pending_fn && not (is_some c.timer)
      then record done { timer = some (now + delay_until min now c.last_run) }
      else done

  pub complete : ℕ → Text → BackfillGate F → BackfillGate F
  complete now name g = elim (lookup name g.chains) [
    | none ↦ g
    | some c ↦ put g name (complete_chain g.min now c)
  ]

  fire_chain_idle : ℕ → Option F → GatedChain F → GatedChain F × Option F
  fire_chain_idle now none c = (record c { pending_fn = none; timer = none }, none)
  fire_chain_idle now (some fn) c =
      (record c { pending_fn = none; timer = none; last_run = some now; in_flight = true }, some fn)

  pub fire_chain : ℕ → GatedChain F → GatedChain F × Option F
  unfolding fire_chain_idle
  fire_chain now c =
      if c.in_flight then (record c { timer = none }, none) else fire_chain_idle now c.pending_fn c

  pub fire_pending : ℕ → Text → BackfillGate F → BackfillGate F × Option F
  fire_pending now name g = elim (lookup name g.chains) [
    | none ↦ (g, none)
    | some c ↦ let (c', start) = fire_chain now c in (put g name c', start)
  ]
