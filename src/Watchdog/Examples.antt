-- ===== src/Watchdog/Examples.antt =====
-- Runs of the watchdog: the probe fails at every tick.
use nimo_os_photos.Prelude.{ℕ, zero, suc, ◌≤◌, ◌≡◌, refl, true, false, none, some, List, [], ◌∷◌}
use nimo_os_photos.Watchdog.{MlWatchdog, Probe, fail_limit, new_ml_watchdog, cooling, tick}
use nimo_os_photos.Watchdog.Runs.{
  state_after, failing, restarts, last_call, restart_only_if_wedged, asks_docker,
}

abbrev wedged : Probe
wedged = record {
  ready = false;
  now = 1000;
  is_running = some true;
  restarting_at = 1001;
  restart_ok = true;
}

abbrev stopped : Probe
stopped = record wedged { is_running = some false }

abbrev repeat : ℕ → List Probe
repeat zero = []
repeat (suc n) = wedged ∷ repeat n

wedged-restarts : restarts (wedged ∷ repeat 11) ≡ true
unfolding restarts state_after new_ml_watchdog tick cooling
wedged-restarts = refl

restart_only_if_wedged_example :
    (fail_limit ≤ failing (wedged ∷ repeat 11))
    × (wedged.is_running ≡ some true)
    × (cooling wedged.now (last_call (repeat 11)) ≡ false)
restart_only_if_wedged_example = restart_only_if_wedged wedged (repeat 11) wedged-restarts

abbrev eleven : MlWatchdog
eleven = record { fails = 11; last_restart = none }

stopped_asks : asks_docker stopped eleven ≡ true
unfolding asks_docker cooling
stopped_asks = refl
