-- ===== src/Watchdog.antt =====
-- service/mlwatchdog.go: MLWatchdog, which restarts the container of the ML server. What a tick sees
-- is an argument: the probe, the clock (w.now is read twice) and the answers of docker. Times are
-- seconds, and the zero time of lastRestart, which lies centuries back, is `none`.
pub mod Runs
mod Examples
use nimo_os_photos.Prelude.{ℕ, ◌+◌, Bool, true, false, not, Option, none, some, ltb, if◌then◌else◌}

abbrev pub fail_limit : ℕ
fail_limit = 12

-- 10 * time.Minute
abbrev pub cooldown : ℕ
cooldown = 600

pub record MlWatchdog : Type 0 where
  pub fails : ℕ
  pub last_restart : Option ℕ

pub new_ml_watchdog : MlWatchdog
new_ml_watchdog = record { fails = 0; last_restart = none }

-- What one tick sees; IsRunning answers `none` where docker fails.
pub record Probe : Type 0 where
  pub ready : Bool
  pub now : ℕ
  pub is_running : Option Bool
  pub restarting_at : ℕ
  pub restart_ok : Bool

-- w.now().Sub(w.lastRestart) < mlWatchdogCooldown
unfoldable pub cooling : ℕ → Option ℕ → Bool
cooling now none = false
cooling now (some last) = ltb now (last + cooldown)

-- What Tick does once docker has answered: the new state, whether it calls Restart, and the result.
abbrev pub confirmed : Probe → Option Bool → MlWatchdog → MlWatchdog × Bool × Bool
confirmed p none w = (w, false, false)
confirmed p (some false) w = (record w { fails = 0 }, false, false)
confirmed p (some true) w =
    (record { fails = 0; last_restart = some p.restarting_at }, true, p.restart_ok)

unfoldable pub tick : Probe → MlWatchdog → MlWatchdog × Bool × Bool
tick p w =
    let failed : MlWatchdog = record w { fails = w.fails + 1 } in
    if p.ready
    then (record w { fails = 0 }, false, false)
    else if ltb failed.fails fail_limit
    then (failed, false, false)
    else if cooling p.now w.last_restart
    then (failed, false, false)
    else confirmed p p.is_running failed
