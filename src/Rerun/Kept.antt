-- ===== src/Rerun/Kept.antt =====
-- What becomes of the calls that find a pass under way.
use mathlib.Core.Option.{some, some_inj}
use nimo_os_photos.Prelude.{
  get_elem?, ℕ, zero, suc, ◌+◌, ◌<◌, ◌≡◌, ◌⊎◌, inl, inr, refl, sym, Bool, true, false, ◌&&◌, ◌||◌,
  any, Bool-cases, List, [], ◌∷◌, arith, if◌then◌else◌,
}
use mathlib.Core.Bool.{or_assoc}
use nimo_os_photos.Rerun.{
  Phase, enters, refused, passing, passed, leaving, returned, Guard, World, next, Event, call, move,
  after, run, idle, advance,
}

abbrev pub holds : Phase → ℕ
holds enters = 0
holds refused = 0
holds passing = 1
holds passed = 1
holds leaving = 1
holds returned = 0

abbrev pub holders : List Phase → ℕ
holders [] = 0
holders (p ∷ ps) = holds p + holders ps

abbrev pub one_if : Bool → ℕ
one_if b = if b then 1 else 0

-- The flag running is set exactly while one goroutine holds it.
abbrev pub Held : World → Type 0
Held w = holders w.routines ≡ one_if w.guard.running

next-Held :
    (ok : Bool) (p : Phase) (g : Guard) (k : ℕ)
    → holds p + k ≡ one_if g.running
    → holds ((next ok p g).0) + k ≡ one_if ((next ok p g).1.running)
unfolding next
next-Held ok enters g k h = ground (arith, h)
next-Held ok refused g k h = h
next-Held true passing g k h = h
next-Held false passing g k h = h
next-Held ok passed g k h = ground (arith, h)
next-Held ok leaving g k h = ground (arith, h)
next-Held ok returned g k h = h

advance-Held :
    (i : ℕ) (ok : Bool) (ps : List Phase) (g : Guard) (k : ℕ)
    → holders ps + k ≡ one_if g.running
    → holders ((advance i ok ps g).routines) + k ≡ one_if ((advance i ok ps g).guard.running)
unfolding advance
advance-Held i ok [] g k h = h
advance-Held zero ok (p ∷ ps) g k h =
    omega (arith, next-Held ok p g (holders ps + k) (omega (arith, h)))
advance-Held (suc i) ok (p ∷ ps) g k h =
    omega (arith, advance-Held i ok ps g (holds p + k) (omega (arith, h)))

after-Held : (e : Event) (w : World) → Held w → Held (after e w)
after-Held call w h = omega (arith, h)
after-Held (move i ok) w h =
    omega (arith, advance-Held i ok w.routines w.guard 0 (omega (arith, h)))

pub run-Held : (es : List Event) (w : World) → Held w → Held (run es w)
unfolding run
run-Held [] w h = h
run-Held (e ∷ es) w h = run-Held es (after e w) (after-Held e w h)

-- A goroutine whose check of rerun_pending is still to come.
abbrev pub checks : Phase → Bool
checks enters = false
checks refused = false
checks passing = true
checks passed = true
checks leaving = false
checks returned = false

-- Since there were n passes, another one has begun, or the flag is set and `b`: a check of it is to come.
abbrev pub Kept : ℕ → Bool → Guard → Type 0
Kept n b g = (n < g.passes) ⊎ ((g.passes ≡ n) × (g.rerun_pending ≡ true) × (b ≡ true))

next-Kept :
    (n : ℕ) (p : Phase) (b : Bool) (g : Guard)
    → Kept n (checks p || b) g
    → Kept n (checks ((next true p g).0) || b) ((next true p g).1)
unfolding next
next-Kept n enters b g h = ground (arith, h)
next-Kept n refused b g h = ground (arith, h)
next-Kept n passing b g h = ground (arith, h)
next-Kept n passed b g h = ground (arith, h)
next-Kept n leaving b g h = ground (arith, h)
next-Kept n returned b g h = h

or_swap : (a b c : Bool) → ((a || b) || c) ≡ (b || (a || c))
or_swap true true c = refl
or_swap true false c = refl
or_swap false b c = refl

advance-Kept :
    (n i : ℕ) (ps : List Phase) (b : Bool) (g : Guard)
    → Kept n (any checks ps || b) g
    → Kept n (any checks ((advance i true ps g).routines) || b) ((advance i true ps g).guard)
unfolding advance
advance-Kept n i [] b g h = h
advance-Kept n zero (p ∷ ps) b g h =
    rw (or_assoc (checks ((next true p g).0)))
      (next-Kept n p (any checks ps || b) g (rw (sym (or_assoc (checks p) (any checks ps) b)) h))
advance-Kept n (suc i) (p ∷ ps) b g h =
    rw (or_swap (checks p))
      (advance-Kept n i ps (checks p || b) g (rw (sym (or_swap (checks p) (any checks ps) b)) h))

-- No pass fails in the event.
abbrev pub succeeds : Event → Bool
succeeds call = true
succeeds (move i ok) = ok

abbrev pub all_succeed : List Event → Bool
all_succeed [] = true
all_succeed (e ∷ es) = succeeds e && all_succeed es

after-Kept :
    (n : ℕ) (e : Event) (w : World)
    → succeeds e ≡ true
    → Kept n (any checks w.routines || false) w.guard
    → Kept n (any checks ((after e w).routines) || false) ((after e w).guard)
after-Kept n call w k h = h
after-Kept n (move i true) w k h = advance-Kept n i w.routines false w.guard h
after-Kept n (move i false) w k h = absurd (cc)

run-Kept :
    (n : ℕ) (es : List Event) (w : World)
    → all_succeed es ≡ true
    → Kept n (any checks w.routines || false) w.guard
    → Kept n (any checks ((run es w).routines) || false) ((run es w).guard)
unfolding run
run-Kept n [] w k h = h
run-Kept n (e ∷ es) w k h =
    run-Kept n es (after e w) (ground (arith, k)) (after-Kept n e w (ground (arith, k)) h)

-- Two operations of the goroutine whose check is to come begin a pass.
abbrev pub Begins : World → Type 0
Begins w = (i : ℕ) × (w.guard.passes < ((run (move i true ∷ move i true ∷ []) w).guard.passes))

head-Begins :
    (p : Phase) (ps : List Phase) (g : Guard)
    → g.rerun_pending ≡ true
    → checks p ≡ true
    → Begins (record { routines = p ∷ ps; guard = g })
unfolding run advance next
head-Begins enters ps g h k = absurd (cc)
head-Begins refused ps g h k = absurd (cc)
head-Begins passing ps g h k = (0, ground (arith, h))
head-Begins passed ps g h k = (0, ground (arith, h))
head-Begins leaving ps g h k = absurd (cc)
head-Begins returned ps g h k = absurd (cc)

flag-Begins :
    (ps : List Phase) (g : Guard)
    → g.rerun_pending ≡ true
    → any checks ps ≡ true
    → Begins (record { routines = ps; guard = g })
unfolding run advance
flag-Begins [] g h k = absurd (cc)
flag-Begins (p ∷ ps) g h k = elim (Bool-cases (checks p)) [
  | inl e ↦ head-Begins p ps g h e
  | inr e ↦ let (i, t) = flag-Begins ps g h (ground (arith, k)) in (suc i, t)
]

checks-holds : (ps : List Phase) → any checks ps ≡ true → 0 < holders ps
checks-holds [] h = absurd (cc)
checks-holds (enters ∷ ps) h = omega (arith, checks-holds ps h)
checks-holds (refused ∷ ps) h = omega (arith, checks-holds ps h)
checks-holds (passing ∷ ps) h = omega arith
checks-holds (passed ∷ ps) h = omega arith
checks-holds (leaving ∷ ps) h = omega arith
checks-holds (returned ∷ ps) h = omega (arith, checks-holds ps h)

flag-Kept :
    (n : ℕ) (w : World)
    → Held w
    → Kept n (any checks w.routines || false) w.guard
    → (n < w.guard.passes) ⊎ ((w.guard.running ≡ true) × Begins w)
flag-Kept n w h (inl k) = inl k
flag-Kept n w h (inr (k, l, m)) = inr (
  ground (arith, h, checks-holds w.routines (ground (arith, m))),
  flag-Begins w.routines w.guard l (ground (arith, m)),
)

stored_flag :
    (i : ℕ) (ps : List Phase) (g : Guard)
    → get_elem? ps i ≡ some refused
    → let v = advance i true ps g in (v.guard.passes ≡ g.passes) × (v.guard.rerun_pending ≡ true)
unfolding advance next
stored_flag i [] g h = absurd (cc)
stored_flag zero (p ∷ ps) g h = let e : p ≡ refused = some_inj.0 h in rw e (refl, refl)
stored_flag (suc i) (p ∷ ps) g h = stored_flag i ps g h

stored :
    (i : ℕ) (ps : List Phase) (g : Guard)
    → get_elem? ps i ≡ some refused
    → any checks ps ≡ true
    → let v = advance i true ps g in
      (v.guard.passes ≡ g.passes) × (v.guard.rerun_pending ≡ true) × (any checks v.routines ≡ true)
unfolding advance next
stored i [] g h k = absurd (cc)
stored zero (p ∷ ps) g h k = let e : p ≡ refused = some_inj.0 h in rw e (refl, refl, rw e at k)
stored (suc i) (p ∷ ps) g h k = elim (Bool-cases (checks p)) [
  | inl e ↦ let (a, b) = stored_flag i ps g h in (a, b, rw e refl)
  | inr e ↦ let (a, b, c) = stored i ps g h (ground (arith, k, e)) in (a, b, rw (e, c) refl)
]

-- Where a call that found running set is about to store the flag, while a goroutine is in a pass or
-- before its check of the flag: it stores it, and after any further steps, in any order, in which no pass fails, a pass
-- has begun since the store, or running is still set and the next two operations of some goroutine begin
-- one if its pass succeeds. Nothing is said of a store after the last check.
pub trigger_kept :
    (before es : List Event) (i : ℕ)
    → let w = run before idle in
      get_elem? w.routines i ≡ some refused
      → any checks w.routines ≡ true
      → all_succeed es ≡ true
      → let v = run (move i true ∷ es) w in
        (w.guard.passes < v.guard.passes) ⊎ ((v.guard.running ≡ true) × Begins v)
unfolding run
trigger_kept before es i h k l =
    let w : World = run before idle in
    let (a, b, c) = stored i w.routines w.guard h k in
    flag-Kept w.guard.passes (run (move i true ∷ es) w)
      (run-Held (move i true ∷ es) w (run-Held before idle refl))
      (run-Kept w.guard.passes es (after (move i true) w) l (inr (a, b, ground (arith, c))))
