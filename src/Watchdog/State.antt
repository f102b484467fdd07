-- ===== src/Watchdog/State.antt =====
-- server/src/lte_watchdog.rs: the watchdog's own state. Instants are milliseconds.
use sctl.Prelude.{
  ℕ, ◌-◌, ◌*◌, ◌^◌, min, Bool, true, false, ◌&&◌, List, [], ◌∷◌, ◌++◌, Option, none, some, String,
  leb, ltb, if◌then◌else◌,
}

pub data Symptom : Type 0 where
  searching : ℕ → Symptom
  registered_no_data not_registered unresponsive relay_problem tunnel_reconnecting : Symptom
  internet_unreachable modem_gone unknown : Symptom

unfoldable pub as_str : Symptom → String
as_str (searching secs) = "searching"
as_str registered_no_data = "registered_no_data"
as_str not_registered = "not_registered"
as_str unresponsive = "unresponsive"
as_str relay_problem = "relay_problem"
as_str tunnel_reconnecting = "tunnel_reconnecting"
as_str internet_unreachable = "internet_unreachable"
as_str modem_gone = "modem_gone"
as_str unknown = "unknown"

pub record WatchdogState : Type 0 where
  pub tunnel_disconnect_since : Option ℕ
  pub tunnel_connected_since : Option ℕ
  pub last_action_at : Option ℕ
  pub last_symptom : Option Symptom
  pub last_action : Option String
  pub consecutive_at_failures : ℕ
  pub reregisters : ℕ
  pub iface_restarts : ℕ
  pub airplane_cycles : ℕ
  pub l3_attempts : ℕ
  pub dormant : Bool
  pub searching_since : Option ℕ
  pub tried_prechange_revert : Bool
  pub tried_safe_revert : Bool
  pub episode_actions : List String

unfoldable pub new : WatchdogState
new = record {
  tunnel_disconnect_since = none;
  tunnel_connected_since = none;
  last_action_at = none;
  last_symptom = none;
  last_action = none;
  consecutive_at_failures = 0;
  reregisters = 0;
  iface_restarts = 0;
  airplane_cycles = 0;
  l3_attempts = 0;
  dormant = false;
  searching_since = none;
  tried_prechange_revert = false;
  tried_safe_revert = false;
  episode_actions = [];
}

unfoldable pub light_reset : WatchdogState → WatchdogState
light_reset s = record s {
  tunnel_disconnect_since = none;
  last_action_at = none;
  consecutive_at_failures = 0;
  reregisters = 0;
  iface_restarts = 0;
  airplane_cycles = 0;
  tried_prechange_revert = false;
  tried_safe_revert = false;
  searching_since = none;
  episode_actions = [];
}

unfoldable pub heavy_reset : WatchdogState → WatchdogState
unfolding light_reset
heavy_reset s = record (light_reset s) { l3_attempts = 0; dormant = false }

abbrev pub dormant_tick_interval : ℕ
dormant_tick_interval = 900000

abbrev pub max_l3_cooldown : ℕ
max_l3_cooldown = 1800000

-- The wait before an action of the level, by the attempts so far. The exponent is at most 3, so
-- the product is far below the limit of 64 bits.
unfoldable pub cooldown : WatchdogState → ℕ → ℕ
cooldown s level =
    if s.dormant
    then dormant_tick_interval
    else if leb 3 level && ltb 0 s.l3_attempts
    then min (300000 * 2 ^ min s.l3_attempts 3) max_l3_cooldown
    else if leb level 0
    then 60000
    else if leb level 2
    then 120000
    else 300000

unfoldable pub cooldown_elapsed : WatchdogState → ℕ → ℕ → Bool
unfolding cooldown
cooldown_elapsed s level now = elim s.last_action_at [
  | none ↦ true
  | some last ↦ leb (cooldown s level) (now - last)
]

unfoldable pub record_action : WatchdogState → String → ℕ → WatchdogState
record_action s action now = record s {
  last_action_at = some now;
  last_action = some action;
  episode_actions = s.episode_actions ++ (action ∷ []);
}
