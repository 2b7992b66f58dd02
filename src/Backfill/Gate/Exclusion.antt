-- ===== src/Backfill/Gate/Exclusion.antt =====
-- What the gate promises of every reachable state of the process.
use nimo_os_photos.Prelude.{
  ℕ, ◌+◌, ◌≤◌, ◌≡◌, ◌⊎◌, inl, inr, Bool, true, false, Option, none, some, Text, text_eq,
  text_eq_refl, is_some, subst, refl, List, [], ◌∷◌, ◌<◌, ◌-◌, if◌then◌else◌, arith,
}
use nimo_os_photos.Backfill.Gate.{
  GatedChain, chain_of, run_chain, run, complete_chain, complete, fire_chain,
}
use nimo_os_photos.Backfill.Gate.Invariant.{ChainInv, Spaced, Gap, newest, chain}
use nimo_os_photos.Backfill.Gate.Schedule.{
  count, starts_of, World, initial, Reach, chain_of-complete, chain_of-put, Reach-WorldInv,
  min-Reach,
}

-- The time lies less than `min` after another, if there is another.
abbrev pub InWindow : ℕ → ℕ → Option ℕ → Type 0
InWindow min now none = ⊥
InWindow min now (some s) = now < s + min

module _ {F : Type 0} where
  inv_of :
      (m : ℕ) {w : World F}
      → Reach (initial m) w
      → (n : Text)
      → ChainInv m w.clock (count n w.running) (starts_of n w.starts) (chain_of w.gate n)
  inv_of m {w} r n =
      subst (λ k. ChainInv k w.clock (count n w.running) (starts_of n w.starts) (chain_of w.gate n))
        (min-Reach m r) (Reach-WorldInv m r n)

  -- In every reachable state of the process each chain has at most one execution under way.
  pub at_most_one_running :
      (m : ℕ) {w : World F} → Reach (initial m) w → (n : Text) → count n w.running ≤ 1
  at_most_one_running m {w} r n = ground (arith, inv_of m r n)

  -- In every reachable state, any two successive executions of a chain began at least one interval
  -- apart.
  pub starts-Spaced :
      (m : ℕ) {w : World F} → Reach (initial m) w → (n : Text) → Spaced m (starts_of n w.starts)
  starts-Spaced m {w} r n = (inv_of m r n).spaced

  -- A chain that is idle and holds a function has its timer armed, and firing it starts the function.
  pub Awaits : ℕ → ℕ → F → GatedChain F → Type 0
  Awaits min now fn c =
      (due : ℕ) × (c.timer ≡ some due) × (due ≤ now + min) × ((fire_chain now c).1 ≡ some fn)

  idle_pending :
      (min now k : ℕ) (ts : List ℕ) (fn : F) (l : Option ℕ) (p : Option F) (t : Option ℕ)
      → ChainInv min now k ts (chain l p t false)
      → p ≡ some fn
      → Awaits min now fn (chain l p t false)
  unfolding fire_chain Awaits
  idle_pending min now k ts fn l p none v e = absurd (ground arith)
  idle_pending min now k ts fn l p (some due) v e =
      (due, refl, omega (arith, v.armed.3), ground arith)

  -- A chain that is executing and holds a function arms its timer when the execution ends.
  busy_pending :
      (min now k : ℕ) (ts : List ℕ) (fn : F) (l : Option ℕ) (p : Option F) (t : Option ℕ)
      → ChainInv min now k ts (chain l p t true)
      → p ≡ some fn
      → Awaits min now fn (complete_chain min now (chain l p t true))
  unfolding fire_chain complete_chain Awaits
  busy_pending min now k ts fn l p (some due) v e = absurd (ground arith)
  busy_pending min now k ts fn l none none v e = absurd (cc)
  busy_pending min now k ts fn none (some f) none v e = (now + 0, refl, omega arith, e)
  busy_pending min now k ts fn (some s) (some f) none v e =
      (now + (min - (now - s)), refl, omega arith, e)

  pending-Awaits :
      (min now k : ℕ) (ts : List ℕ) (fn : F) (l : Option ℕ) (p : Option F) (t : Option ℕ) (b : Bool)
      → ChainInv min now k ts (chain l p t b)
      → p ≡ some fn
      → let c = chain l p t b in
        ((k ≡ 0) × Awaits min now fn c) ⊎ ((k ≡ 1) × Awaits min now fn (complete_chain min now c))
  pending-Awaits min now k ts fn l p t false v e =
      inl (v.exclusive, idle_pending min now k ts fn l p t v e)
  pending-Awaits min now k ts fn l p t true v e =
      inr (v.exclusive, busy_pending min now k ts fn l p t v e)

  -- A merged trigger is never lost: in every reachable state, a chain that holds a pending function
  -- is either idle, with a timer due within one interval whose firing starts that very function, or
  -- executing once, and completing that execution leads to such an armed timer.
  pub pending_not_lost :
      (m : ℕ) {w : World F}
      → Reach (initial m) w
      → (n : Text) (fn : F) → (chain_of w.gate n).pending_fn ≡ some fn
      → ((count n w.running ≡ 0) × Awaits m w.clock fn (chain_of w.gate n))
        ⊎ ((count n w.running ≡ 1) × Awaits m w.clock fn (chain_of (complete w.clock n w.gate) n))
  unfolding chain_of
  pending_not_lost m {w} r n fn p =
      rw (chain_of-complete, text_eq_refl, min-Reach m r)
        (pending-Awaits m w.clock _ _ fn _ _ _ _ (inv_of m r n) p)

  -- What a trigger does to a chain with `k` executions under way that began at `ts`.
  pub Triggered : ℕ → ℕ → ℕ → List ℕ → F → GatedChain F → GatedChain F × Option F → Type 0
  Triggered min now k ts fn c (c', start) =
      ((start ≡ some fn)
        × (c' ≡ record c { last_run = some now; in_flight = true })
        × (k ≡ 0)
        × (c.timer ≡ none)
        × Gap min now (newest ts))
      ⊎ ((start ≡ none)
          × (c'.pending_fn ≡ some fn)
          × (c'.last_run ≡ c.last_run)
          × ((k ≡ 1) ⊎ ((is_some c.timer ≡ true) ⊎ InWindow min now (newest ts))))

  trigger_cases :
      (min now k : ℕ) (ts : List ℕ) (fn : F) (l : Option ℕ) (p : Option F) (t : Option ℕ) (b : Bool)
      → ChainInv min now k ts (chain l p t b)
      → Triggered min now k ts fn (chain l p t b) (run_chain min now fn (chain l p t b))
  unfolding run_chain Triggered
  trigger_cases min now k ts fn l p (some due) true v = ground arith
  trigger_cases min now k ts fn l p none true v = ground arith
  trigger_cases min now k ts fn l p (some due) false v = ground arith
  trigger_cases min now k [] fn none p none false v = ground arith
  trigger_cases min now k [] fn (some s) p none false v = absurd (cc v.started)
  trigger_cases min now k (s' ∷ ts) fn none p none false v = absurd (cc v.started)
  trigger_cases min now k (s' ∷ ts) fn (some s) p none false v = ground arith

  -- A trigger at a reachable state starts its function at once exactly in the first case: no execution
  -- of the chain is under way, no timer is armed and the last one began at least one interval ago;
  -- it then marks the chain busy from now. In the other case its function replaces the pending one and
  -- nothing starts. No other chain changes.
  run-Triggered :
      (m : ℕ) {w : World F}
      → Reach (initial m) w
      → (n other : Text) (fn : F)
      → let (g, start) = run w.clock n fn w.gate in
        Triggered m w.clock
          (count n w.running)
          (starts_of n w.starts)
          fn
          (chain_of w.gate n)
          (chain_of g n, start)
        × (chain_of g other ≡ (if text_eq n other then chain_of g n else chain_of w.gate other))
  unfolding run chain_of run_chain
  run-Triggered m {w} r n other fn = (
    rw (chain_of-put, text_eq_refl, min-Reach m r)
        (trigger_cases m w.clock _ _ fn _ _ _ _ (inv_of m r n)),
    rw (chain_of-put w.gate n other _, chain_of-put w.gate n n _, text_eq_refl n),
  )
