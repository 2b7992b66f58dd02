-- ===== src/Backfill/Gate/Invariant.antt =====
-- What holds of one chain of the gate between two critical sections, kept by each of them.
use nimo_os_photos.Prelude.{
  ℕ, ◌+◌, ◌-◌, ◌≤◌, ◌<◌, ◌≡◌, Bool, true, false, ◌||◌, not, Option, none, some, List, [], ◌∷◌,
  is_some, arith,
}
use nimo_os_photos.Backfill.Gate.{GatedChain, new_chain, run_chain, complete_chain, fire_chain}

-- A time stands at least `min` after another, if there is another.
abbrev pub Gap : ℕ → ℕ → Option ℕ → Type 0
Gap min t none = Unit
Gap min t (some s) = s + min ≤ t

abbrev pub AtMost : ℕ → Option ℕ → Type 0
AtMost now none = Unit
AtMost now (some t) = t ≤ now

abbrev pub newest : List ℕ → Option ℕ
newest [] = none
newest (t ∷ ts) = some t

-- Start times, newest first, each at least `min` after the one before.
abbrev pub Spaced : ℕ → List ℕ → Type 0
Spaced min [] = Unit
Spaced min (t ∷ ts) = Gap min t (newest ts) × Spaced min ts

abbrev pub in_progress : Bool → ℕ
in_progress true = 1
in_progress false = 0

module _ {ℓ} {F : Type ℓ} where
  -- An armed timer belongs to an idle chain that has something to run, and is due after the window
  -- and no later than one interval from now.
  abbrev pub Armed : ℕ → ℕ → GatedChain F → Option ℕ → Type 0
  Armed min now c none = Unit
  Armed min now c (some due) =
      (c.in_flight ≡ false)
      × (is_some c.pending_fn ≡ true)
      × Gap min due c.last_run
      × (due ≤ now + min)

  -- `k` executions of the chain are in progress, and the chain's executions began at `ts`.
  pub record ChainInv (min now k : ℕ) (ts : List ℕ) (c : GatedChain F) : Type 0 where
    pub exclusive : k ≡ in_progress c.in_flight
    pub armed : Armed min now c c.timer
    pub kept : (not (is_some c.pending_fn) || is_some c.timer || c.in_flight) ≡ true
    pub past : AtMost now c.last_run
    pub started : c.last_run ≡ newest ts
    pub spaced : Spaced min ts

  abbrev pub began : Option F → ℕ
  began none = 0
  began (some fn) = 1

  abbrev pub begin_at : Option F → ℕ → List ℕ → List ℕ
  begin_at none now ts = ts
  begin_at (some fn) now ts = now ∷ ts

  pub new_chain-ChainInv : (min now : ℕ) → ChainInv min now 0 [] new_chain
  new_chain-ChainInv min now = ground arith

  abbrev pub chain : Option ℕ → Option F → Option ℕ → Bool → GatedChain F
  chain l p t b = record { last_run = l; pending_fn = p; timer = t; in_flight = b }

  run_chain_cases :
      (min now k : ℕ) (ts : List ℕ) (fn : F) (l : Option ℕ) (p : Option F) (t : Option ℕ) (b : Bool)
      → ChainInv min now k ts (chain l p t b)
      → let (c', start) = run_chain min now fn (chain l p t b) in
        ChainInv min now (began start + k) (begin_at start now ts) c'
  unfolding run_chain
  run_chain_cases min now k [] fn none none none false v = ground arith
  run_chain_cases min now k [] fn _ _ _ _ v = ground arith
  run_chain_cases min now k (s ∷ ts) fn _ _ _ _ v = ground arith

  pub run_chain-ChainInv :
      (min now k : ℕ) (ts : List ℕ) (fn : F) (c : GatedChain F)
      → ChainInv min now k ts c
      → let (c', start) = run_chain min now fn c in
        ChainInv min now (began start + k) (begin_at start now ts) c'
  run_chain-ChainInv min now k ts fn c v =
      run_chain_cases min now k ts fn c.last_run c.pending_fn c.timer c.in_flight v

  complete_chain_cases :
      (min now k : ℕ) (ts : List ℕ) (l : Option ℕ) (p : Option F) (t : Option ℕ) (b : Bool)
      → 0 < k
      → ChainInv min now k ts (chain l p t b)
      → ChainInv min now (k - 1) ts (complete_chain min now (chain l p t b))
  unfolding complete_chain
  complete_chain_cases min now k ts none none none false h v = ground arith
  complete_chain_cases min now k ts _ _ _ _ h v = ground arith

  pub complete_chain-ChainInv :
      (min now k : ℕ) (ts : List ℕ) (c : GatedChain F)
      → 0 < k
      → ChainInv min now k ts c
      → ChainInv min now (k - 1) ts (complete_chain min now c)
  complete_chain-ChainInv min now k ts c h v =
      complete_chain_cases min now k ts c.last_run c.pending_fn c.timer c.in_flight h v

  fire_chain_cases :
      (min now k due : ℕ) (ts : List ℕ) (l : Option ℕ) (p : Option F) (t : Option ℕ) (b : Bool)
      → ChainInv min now k ts (chain l p t b)
      → t ≡ some due
      → due ≤ now
      → let (c', start) = fire_chain now (chain l p t b) in
        ChainInv min now (began start + k) (begin_at start now ts) c'
  unfolding fire_chain
  fire_chain_cases min now k due [] none none none false v e h = ground arith
  fire_chain_cases min now k due [] _ _ _ _ v e h = ground arith
  fire_chain_cases min now k due (s ∷ ts) _ _ _ _ v e h = ground arith

  pub fire_chain-ChainInv :
      (min now k due : ℕ) (ts : List ℕ) (c : GatedChain F)
      → ChainInv min now k ts c
      → c.timer ≡ some due
      → due ≤ now
      → let (c', start) = fire_chain now c in
        ChainInv min now (began start + k) (begin_at start now ts) c'
  fire_chain-ChainInv min now k due ts c v e h =
      fire_chain_cases min now k due ts c.last_run c.pending_fn c.timer c.in_flight v e h
