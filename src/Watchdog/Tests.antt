-- ===== src/Watchdog/Tests.antt =====
-- server/src/lte_watchdog.rs: the watchdog's theorems on examples, and runs of its parts.
use sctl.Prelude.{◌++◌, ℕ, ◌≡◌, refl, true, false, [], ◌∷◌, none, some, codes, arith}
use sctl.Watchdog.Cereg
use sctl.Watchdog.Cereg.{RegistrationStatus, is_registered, parse_cereg, status_of_stat}
use sctl.Watchdog.State
use sctl.Watchdog.State.{
  WatchdogState, unresponsive, internet_unreachable, registered_no_data, relay_problem, modem_gone,
  light_reset, heavy_reset, cooldown, cooldown_elapsed, record_action,
}
use sctl.Watchdog.Snapshot
use sctl.Watchdog.Snapshot.{WatchdogSnapshot, push_event, update_snapshot}
use sctl.Watchdog.Lte.{LteState, promote_safe_bands, passes_gate}
use sctl.Watchdog.Gate.{LteConfig, Observed, diagnose}
use sctl.Watchdog.Dispatch.{
  Watch, ActionAnswers, dispatch, on_unresponsive, restart, action_airplane_cycle,
}
use sctl.Watchdog.Round.{TickAnswers, RevertAnswers, skip_tick}
use sctl.Watchdog.Connected.{promote_stable, mark_stable}
use sctl.Watchdog.Treat.{treat, after_action}
use sctl.Watchdog.Tick.{run}
use sctl.Watchdog.Actions.{is_actionable, Rested}
use sctl.Watchdog.Caution.{treat-acts}
use sctl.Watchdog.Stays.{run-dormant}

abbrev cfg : LteConfig
cfg = record {
  watchdog_grace_secs = 60;
  max_escalation_level = 4;
  usb_cycle_evidence = record { min_sustained_secs = 900; require_sysfs_absent = true };
  unknown_action = record { airplane_cycle = true; escalate = false };
  notregistered_grace_secs = 300;
}

-- A modem that answers no AT command.
abbrev silent : Observed
silent = record {
  at_ok = false;
  enumerated = true;
  reconnecting = false;
  has_ipv4 = false;
  cereg = none;
  reachable = false;
}

abbrev answers : ActionAnswers
answers = record {
  now = 1000000;
  epoch = 1000;
  cops = true;
  cfun_off = true;
  cfun_on = true;
  restart = "iface_restart";
  usb = "usb_power_cycle";
  sysfs_present = false;
}

abbrev no_revert : RevertAnswers
no_revert = record { applied = false; now = 0; recovered = false }

abbrev down_at : ℕ → TickAnswers
down_at t = record {
  now = t;
  epoch = 1000;
  connected = false;
  exhaustion_file = false;
  cereg = none;
  prechange = no_revert;
  current_bands = none;
  safe = no_revert;
  observed = silent;
  action = record answers { now = t };
  acted_at = t;
  has_ipv4 = true;
  recovered = false;
}

abbrev up_at : ℕ → TickAnswers
up_at t = record (down_at t) { connected = true }

abbrev lte : LteState
lte = record {
  signal = none;
  scan_status = none;
  band_action_until = none;
  safe_bands = none;
  bands_at_connect = none;
  band_stable_since = none;
  last_band_change_at = none;
  pre_change_bands = none;
  last_user_action_at = none;
}

abbrev started : Watch
started = record { state = State.new; snapshot = Snapshot.new }

-- Down since the start, with two failed AT commands.
abbrev failing : Watch
failing = record started {
  state = record (State.new) { tunnel_disconnect_since = some 0; consecutive_at_failures = 2 };
}

-- Dormant and connected again since the start.
abbrev sleeping : Watch
sleeping = record started {
  state = record (State.new) {
    tunnel_disconnect_since = some 0;
    tunnel_connected_since = some 0;
    l3_attempts = 3;
    dormant = true;
  };
}

treat-acts_example :
    (is_actionable (diagnose silent State.new 1000000).0 ≡ true) × Rested State.new 1000000
unfolding treat dispatch on_unresponsive restart cooldown_elapsed after_action diagnose State.new
treat-acts_example = treat-acts cfg started 1000 (down_at 1000000) (λ e. cc)

run-dormant_example :
    ((run cfg sleeping ((lte, up_at 100000) ∷ (lte, up_at 900000) ∷ [])).state.dormant ≡ true)
    × ((run cfg sleeping ((lte, up_at 100000) ∷ (lte, up_at 900000) ∷ [])).state.l3_attempts ≡ 3)
unfolding skip_tick State.new
run-dormant_example =
    run-dormant cfg sleeping lte (up_at 100000) 0 ((lte, up_at 900000) ∷ []) refl refl refl refl
      (omega arith) (omega arith) (refl, tt)

-- A searching modem that is registered after all, in a network that is not its own.
cereg_roaming :
    parse_cereg (codes "AT+CEREG?" ++ 13 ∷ 10 ∷ codes "+CEREG: 0, 5") ≡ some Cereg.registered_roam
unfolding parse_cereg status_of_stat
cereg_roaming = refl

cereg_malformed : parse_cereg (codes "+CEREG: 256") ≡ none
unfolding parse_cereg status_of_stat
cereg_malformed = refl

roaming_registered : is_registered Cereg.registered_roam ≡ true
unfolding is_registered
roaming_registered = refl

roaming_name : Cereg.as_str Cereg.registered_roam ≡ "roaming"
unfolding Cereg.as_str
roaming_name = refl

idle_at_first : Snapshot.new.state ≡ "idle"
unfolding Snapshot.new
idle_at_first = refl

-- The 300 seconds of level 3 double with each attempt, up to half an hour.
cooldown_doubles : cooldown (record (State.new) { l3_attempts = 2 }) 3 ≡ 1200000
unfolding cooldown State.new
cooldown_doubles = refl

cooldown_capped : cooldown (record (State.new) { l3_attempts = 9 }) 3 ≡ 1800000
unfolding cooldown State.new
cooldown_capped = refl

-- A failing `AT+CFUN=0` counts, a failing `AT+CFUN=1` after it counts from 0 again.
airplane_partial :
    (action_airplane_cycle
      (record (State.new) { consecutive_at_failures = 2 })
      (record answers { cfun_on = false })).consecutive_at_failures
    ≡ 1
unfolding action_airplane_cycle State.new
airplane_partial = refl

weak_signal_kept :
    (promote_safe_bands
      (record lte {
        safe_bands = some (record {
          bands = 4 ∷ [];
          priority_band = none;
          confirmed_at = 1;
          signal_rsrp = some 2147483500;
        });
      })
      (7 ∷ [])
      none
      (some 2147483400)
      9).safe_bands
    ≡ some (record {
      bands = 4 ∷ [];
      priority_band = none;
      confirmed_at = 1;
      signal_rsrp = some 2147483500;
    })
unfolding promote_safe_bands passes_gate
weak_signal_kept = refl

stable_promoted :
    (promote_stable
      (record lte { bands_at_connect = some (2 ∷ []); band_stable_since = some 0 })
      300000
      7).safe_bands
    ≡ some (record { bands = 2 ∷ []; priority_band = none; confirmed_at = 7; signal_rsrp = none })
unfolding promote_stable mark_stable promote_safe_bands passes_gate
stable_promoted = refl
