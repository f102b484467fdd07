-- ===== src/Watchdog/Snapshot.antt =====
-- server/src/lte_watchdog.rs: the snapshot of the watchdog that the API shows. The details and the
-- evidence of an event are texts for humans and are left out, as are the fields that
-- `push_event` always fills with the same values.
use sctl.Prelude.{ℕ, ◌-◌, ◌/◌, List, [], Option, none, String}
use sctl.Prelude.Map.{map_option}
use sctl.Prelude.Ring.{push_bounded}
use sctl.Watchdog.State.{WatchdogState, as_str}

pub record WatchdogEvent : Type 0 where
  pub timestamp : ℕ
  pub symptom : String
  pub action : String

pub record WatchdogSnapshot : Type 0 where
  pub state : String
  pub disconnect_secs : Option ℕ
  pub last_symptom : Option String
  pub last_action : Option String
  pub last_action_secs_ago : Option ℕ
  pub l3_attempts : ℕ
  pub episode_actions : List String
  pub recent_events : List WatchdogEvent

unfoldable pub new : WatchdogSnapshot
new = record {
  state = "idle";
  disconnect_secs = none;
  last_symptom = none;
  last_action = none;
  last_action_secs_ago = none;
  l3_attempts = 0;
  episode_actions = [];
  recent_events = [];
}

abbrev pub max_snapshot_events : ℕ
max_snapshot_events = 20

unfoldable pub push_event : WatchdogSnapshot → String → String → ℕ → WatchdogSnapshot
push_event snap symptom action timestamp = record snap {
  recent_events =
      push_bounded max_snapshot_events snap.recent_events
        (record { timestamp = timestamp; symptom = symptom; action = action });
}

-- `now` is the clock's reading; the ages are whole seconds.
unfoldable pub update_snapshot : WatchdogSnapshot → WatchdogState → String → ℕ → WatchdogSnapshot
update_snapshot snap s status now = record snap {
  state = status;
  disconnect_secs = map_option (λ t. (now - t) / 1000) s.tunnel_disconnect_since;
  last_symptom = map_option as_str s.last_symptom;
  last_action = s.last_action;
  last_action_secs_ago = map_option (λ t. (now - t) / 1000) s.last_action_at;
  l3_attempts = s.l3_attempts;
  episode_actions = s.episode_actions;
}
