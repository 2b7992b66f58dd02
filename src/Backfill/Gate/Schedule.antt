-- ===== src/Backfill/Gate/Schedule.antt =====
-- The goroutines that use the gate, as interleavings of its critical sections. A goroutine inside
-- `fn()` is an entry of `running`; a timer that is armed may fire at any time from its due time on.
use nimo_os_photos.Prelude.{
  ℕ, ◌+◌, ◌-◌, ◌≤◌, ◌<◌, ◌≡◌, refl, ◌∙◌, inl, inr, Option, none, some, List, [], ◌∷◌, Text, text_Eq,
  text_eq, text_eq_iff, text_eq→≡, Bool-cases, subst, zero-add, lookup, lookup-insert,
  if◌then◌else◌, Option-cases, arith,
}
use nimo_os_photos.Backfill.Gate.{
  GatedChain, BackfillGate, new_backfill_gate, chain_of, put, run, complete_chain, complete,
  fire_chain, fire_pending,
}
use nimo_os_photos.Backfill.Gate.Invariant.{
  ChainInv, began, begin_at, new_chain-ChainInv, run_chain-ChainInv, complete_chain-ChainInv,
  fire_chain-ChainInv, AtMost, Armed,
}

-- How often a name is on the list.
pub count : Text → List Text → ℕ
count n [] = 0
count n (m ∷ ms) = let rest = count n ms in if text_eq m n then 1 + rest else rest

pub remove : Text → List Text → List Text
remove n [] = []
remove n (m ∷ ms) = let rest = remove n ms in if text_eq m n then ms else m ∷ rest

count-remove :
    (n m : Text) (ms : List Text)
    → count m (remove n ms) ≡ (if text_eq n m then count m ms - 1 else count m ms)
unfolding count remove
count-remove n m [] = ground arith
count-remove n m (x ∷ ms) =
    ground (arith, text_eq_iff n m, text_eq_iff x n, text_eq_iff x m, count-remove n m ms)

-- When the chain's executions began, newest first.
pub starts_of : Text → List (Text × ℕ) → List ℕ
starts_of n [] = []
starts_of n ((m, t) ∷ ss) = let rest = starts_of n ss in if text_eq m n then t ∷ rest else rest

AtMost-mono : {now later : ℕ} (t : Option ℕ) → now ≤ later → AtMost now t → AtMost later t
AtMost-mono none h p = tt
AtMost-mono (some t) h p = omega arith

pub record World {ℓ} (F : Type ℓ) : Type ℓ where
  pub clock : ℕ
  pub gate : BackfillGate F
  pub running : List Text
  pub starts : List (Text × ℕ)

module _ {ℓ} {F : Type ℓ} where
  unfoldable pub initial : ℕ → World F
  initial m = record { clock = 0; gate = new_backfill_gate m; running = []; starts = [] }

  -- What a critical section leaves behind: the gate, and an execution of `name` if one begins.
  unfoldable pub enter : World F → Text → BackfillGate F × Option F → World F
  enter w name (g, none) = record w { gate = g }
  enter w name (g, some fn) = record w {
    gate = g;
    running = name ∷ w.running;
    starts = (name, w.clock) ∷ w.starts;
  }

  pub data Step : World F → World F → Type ℓ where
    passes : (w : World F) (d : ℕ) → Step w (record w { clock = w.clock + d })
    triggers :
        (w : World F) (name : Text) (fn : F) → Step w (enter w name (run w.clock name fn w.gate))
    finishes :
        (w : World F) (name : Text)
        → 0 < count name w.running
        → Step w (record w { gate = complete w.clock name w.gate; running = remove name w.running })
    fires :
        (w : World F) (name : Text) {due : ℕ}
        → (chain_of w.gate name).timer ≡ some due
        → due ≤ w.clock
        → Step w (enter w name (fire_pending w.clock name w.gate))

  pub data Reach (s : World F) : World F → Type ℓ where
    here : Reach s s
    next : {t u : World F} → Reach s t → Step t u → Reach s u

  pub chain_of-put :
      (g : BackfillGate F) (n m : Text) (c : GatedChain F)
      → chain_of (put g n c) m ≡ (if text_eq n m then c else chain_of g m)
  unfolding chain_of put
  chain_of-put g n m c = ground (arith, lookup-insert n m c g.chains)

  -- `complete` and `fire_pending` act on the chain of the name, also when there is none yet.
  pub chain_of-complete :
      (now : ℕ) (n m : Text) (g : BackfillGate F)
      → chain_of (complete now n g) m
        ≡ (if text_eq n m then complete_chain g.min now (chain_of g n) else chain_of g m)
  unfolding complete complete_chain chain_of
  chain_of-complete now n m g = elim (Option-cases (lookup n g.chains)) [
    | inl e ↦ ground (arith, text_eq_iff n m)
    | inr (c, e) ↦
        rw (e, complete)
          (unfold put in ground (arith, lookup-insert n m (complete_chain g.min now c) g.chains))
  ]

  pub chain_of-fire_pending :
      (now : ℕ) (n m : Text) (g : BackfillGate F)
      → (chain_of (fire_pending now n g).0 m
          ≡ (if text_eq n m then (fire_chain now (chain_of g n)).0 else chain_of g m))
        × ((fire_pending now n g).1 ≡ (fire_chain now (chain_of g n)).1)
  unfolding fire_pending chain_of fire_chain
  chain_of-fire_pending now n m g = elim (Option-cases (lookup n g.chains)) [
    | inl e ↦ ground (arith, text_eq_iff n m)
    | inr (c, e) ↦
        rw (e, fire_pending)
          (unfold put in ground (arith, lookup-insert n m (fire_chain now c).0 g.chains))
  ]

  abbrev pub WorldInv : World F → Type 0
  WorldInv w =
      (n : Text)
      → ChainInv w.gate.min w.clock (count n w.running) (starts_of n w.starts) (chain_of w.gate n)

  -- A critical section on the chain `name` that makes it `c'`, and begins an execution or not.
  enter-WorldInv :
      (w : World F) (name : Text) (g : BackfillGate F) (c' : GatedChain F) (start : Option F)
      → g.min ≡ w.gate.min
      → ((n : Text) → chain_of g n ≡ (if text_eq name n then c' else chain_of w.gate n))
      → ChainInv w.gate.min w.clock
          (began start + count name w.running)
          (begin_at start w.clock (starts_of name w.starts))
          c'
      → WorldInv w
      → WorldInv (enter w name (g, start))
  unfolding enter count starts_of
  enter-WorldInv w name g c' none em eg v inv n = elim (Bool-cases (text_eq name n)) [
    | inl e ↦
        rw (eg n, e, em)
          (subst (λ m. ChainInv w.gate.min w.clock (count m w.running) (starts_of m w.starts) c')
            (text_eq→≡ name n e) (rw zero-add at v))
    | inr e ↦ rw (eg n, e, em) (inv n)
  ]
  enter-WorldInv w name g c' (some fn) em eg v inv n = elim (Bool-cases (text_eq name n)) [
    | inl e ↦
        rw (eg n, e, em)
          (subst
            (λ m.
              ChainInv w.gate.min w.clock (1 + count m w.running) (w.clock ∷ starts_of m w.starts)
                c')
            (text_eq→≡ name n e) v)
    | inr e ↦ rw (eg n, e, em) (inv n)
  ]

  min-complete : (now : ℕ) (n : Text) (g : BackfillGate F) → (complete now n g).min ≡ g.min
  unfolding complete put
  min-complete now n g = ground arith

  min-fire_pending :
      (now : ℕ) (n : Text) (g : BackfillGate F) → (fire_pending now n g).0.min ≡ g.min
  unfolding fire_pending put
  min-fire_pending now n g = ground arith

  Armed-mono :
      (min : ℕ) {now later : ℕ} (c : GatedChain F) (t : Option ℕ)
      → now ≤ later
      → Armed min now c t
      → Armed min later c t
  Armed-mono min c none h a = tt
  Armed-mono min c (some due) h a = (a.0, a.1, a.2, omega arith)

  ChainInv-mono :
      {min now : ℕ} (later : ℕ) {k : ℕ} {ts : List ℕ} {c : GatedChain F}
      → now ≤ later
      → ChainInv min now k ts c
      → ChainInv min later k ts c
  ChainInv-mono {min} {now} later {k} {ts} {c} h v = record {
    exclusive = v.exclusive;
    armed = Armed-mono min c c.timer h v.armed;
    kept = v.kept;
    past = AtMost-mono c.last_run h v.past;
    started = v.started;
    spaced = v.spaced;
  }

  finish-WorldInv :
      (w : World F) (name : Text)
      → 0 < count name w.running
      → WorldInv w
      → WorldInv (record w { gate = complete w.clock name w.gate; running = remove name w.running })
  finish-WorldInv w name h inv n = elim (Bool-cases (text_eq name n)) [
    | inl e ↦
        rw (chain_of-complete, count-remove, e, min-complete)
          (subst
            (λ m.
              ChainInv w.gate.min w.clock (count m w.running - 1) (starts_of m w.starts)
                (complete_chain w.gate.min w.clock (chain_of w.gate name)))
            (text_eq→≡ name n e) (complete_chain-ChainInv _ _ _ _ _ h (inv name)))
    | inr e ↦ rw (chain_of-complete, count-remove, e, min-complete) (inv n)
  ]

  -- Every step of the process keeps the invariant of every chain.
  Step-WorldInv : {w u : World F} → Step w u → WorldInv w → WorldInv u
  unfolding run put
  Step-WorldInv (passes w d) inv = λ n. ChainInv-mono _ (omega arith) (inv n)
  Step-WorldInv (triggers w name fn) inv =
      enter-WorldInv w name _ _ _ refl (λ n. chain_of-put w.gate name n _)
        (run_chain-ChainInv _ _ _ _ fn _ (inv name)) inv
  Step-WorldInv (finishes w name h) inv = finish-WorldInv w name h inv
  Step-WorldInv (fires w name {due} e h) inv =
      enter-WorldInv w name _ (fire_chain w.clock (chain_of w.gate name)).0 _
        (min-fire_pending w.clock name w.gate)
        (λ n. (chain_of-fire_pending w.clock name n w.gate).0)
        (rw ((chain_of-fire_pending w.clock name name w.gate).1)
          (fire_chain-ChainInv _ _ _ due _ _ (inv name) e h))
        inv

  pub Reach-WorldInv : (m : ℕ) {w : World F} → Reach (initial m) w → WorldInv w
  unfolding initial count starts_of chain_of lookup new_backfill_gate
  Reach-WorldInv m here = λ n. new_chain-ChainInv m 0
  Reach-WorldInv m (next r st) = Step-WorldInv st (Reach-WorldInv m r)

  min-enter :
      (w : World F) (name : Text) (g : BackfillGate F) (start : Option F)
      → (enter w name (g, start)).gate.min ≡ g.min
  unfolding enter
  min-enter w name g none = refl
  min-enter w name g (some fn) = refl

  min-Step : {w u : World F} → Step w u → u.gate.min ≡ w.gate.min
  unfolding run put
  min-Step (passes w d) = refl
  min-Step (triggers w name fn) = min-enter w name _ _
  min-Step (finishes w name h) = min-complete w.clock name w.gate
  min-Step (fires w name e h) = min-enter w name _ _ ∙ min-fire_pending w.clock name w.gate

  pub min-Reach : (m : ℕ) {w : World F} → Reach (initial m) w → w.gate.min ≡ m
  unfolding initial new_backfill_gate
  min-Reach m here = refl
  min-Reach m (next r st) = min-Step st ∙ min-Reach m r
