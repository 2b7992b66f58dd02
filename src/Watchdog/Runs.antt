-- ===== src/Watchdog/Runs.antt =====
-- The ticks of Run one after another.
use nimo_os_photos.Prelude.{
  ℕ, suc, length, ◌+◌, ◌≤◌, ◌<◌, ◌≡◌, refl, Bool, true, false, ◌&&◌, not, Option, none, some, List,
  [], ◌∷◌, ltb, arith, if◌then◌else◌,
}
use nimo_os_photos.Watchdog.{MlWatchdog, Probe, fail_limit, new_ml_watchdog, cooling, tick}

-- The state after some ticks, newest first.
unfoldable pub state_after : List Probe → MlWatchdog
state_after [] = new_ml_watchdog
state_after (p ∷ ps) = (tick p (state_after ps)).0

-- How many of the last ticks, without a break, failed their probe.
unfoldable pub failing : List Probe → ℕ
failing [] = 0
failing (p ∷ ps) = let before = failing ps in if p.ready then 0 else suc before

-- Whether the newest tick calls Restart.
unfoldable pub restarts : List Probe → Bool
restarts [] = false
restarts (p ∷ ps) = (tick p (state_after ps)).1

-- When Restart was last called.
unfoldable pub last_call : List Probe → Option ℕ
last_call [] = none
last_call (p ∷ ps) =
    let before = last_call ps in if restarts (p ∷ ps) then some p.restarting_at else before

tick-fails :
    (p : Probe) (w : MlWatchdog) → (tick p w).0.fails ≤ (if p.ready then 0 else suc w.fails)
unfolding tick
tick-fails p w = ground arith

tick-restart :
    (p : Probe) (w : MlWatchdog)
    → (tick p w).0.last_restart ≡ (if (tick p w).1 then some p.restarting_at else w.last_restart)
unfolding tick
tick-restart p w = ground arith

tick-guard :
    (p : Probe) (w : MlWatchdog)
    → (tick p w).1 ≡ true
    → (p.ready ≡ false)
      × (fail_limit ≤ suc w.fails)
      × (cooling p.now w.last_restart ≡ false)
      × (p.is_running ≡ some true)
unfolding tick
tick-guard p w h = ground arith

fails-failing : (ps : List Probe) → (state_after ps).fails ≤ failing ps
unfolding state_after failing new_ml_watchdog
fails-failing [] = omega arith
fails-failing (p ∷ ps) = ground (arith, tick-fails p (state_after ps), fails-failing ps)

last_call_lem : (ps : List Probe) → (state_after ps).last_restart ≡ last_call ps
unfolding state_after last_call restarts new_ml_watchdog
last_call_lem [] = refl
last_call_lem (p ∷ ps) = rw (tick-restart p (state_after ps), last_call_lem ps) refl

-- Over any ticks, where the newest one calls Restart: its probe and the ones before it failed without
-- a break at least 12 times, docker has just said that the container runs, and Restart was never
-- called before or last called at least ten minutes before the clock that the tick reads first.
pub restart_only_if_wedged :
    (p : Probe) (ps : List Probe)
    → restarts (p ∷ ps) ≡ true
    → (fail_limit ≤ failing (p ∷ ps))
      × (p.is_running ≡ some true)
      × (cooling p.now (last_call ps) ≡ false)
unfolding restarts failing
restart_only_if_wedged p ps h =
    let (r, n, c, d) = tick-guard p (state_after ps) h in
    (rw r (omega (arith, n, fails-failing ps)), d, rw⁻¹ (last_call_lem ps) c)

-- Whether the newest tick asks docker.
unfoldable pub asks_docker : Probe → MlWatchdog → Bool
asks_docker p w =
    not p.ready && not (ltb (w.fails + 1) fail_limit) && not (cooling p.now w.last_restart)

unfoldable pub ticks : List Probe → MlWatchdog → MlWatchdog
ticks [] w = w
ticks (p ∷ ps) w = (tick p (ticks ps w)).0

fails-ticks : (ps : List Probe) (w : MlWatchdog) → (ticks ps w).fails ≤ length ps + w.fails
unfolding ticks
fails-ticks [] w = omega arith
fails-ticks (p ∷ ps) w = ground (arith, tick-fails p (ticks ps w), fails-ticks ps w)

reset-not_running :
    (q : Probe) (w : MlWatchdog)
    → asks_docker q w ≡ true
    → q.is_running ≡ some false
    → (tick q w).0.fails ≡ 0
unfolding tick asks_docker
reset-not_running q w a d = ground arith

-- Where docker says that the container does not run, the next 11 ticks do not ask it again: fewer
-- than 11 ticks later a tick makes no call of docker.
not_running_backs_off :
    (q p : Probe) (w : MlWatchdog) (ps : List Probe)
    → asks_docker q w ≡ true
    → q.is_running ≡ some false
    → length ps < 11
    → asks_docker p (ticks ps (tick q w).0) ≡ false
unfolding asks_docker
not_running_backs_off q p w ps a d n =
    ground (arith, fails-ticks ps (tick q w).0, reset-not_running q w a d)
