-- ===== src/Watchdog/Dispatch.antt =====
-- server/src/lte_watchdog.rs: what the watchdog does about a symptom.
use sctl.Prelude.{
  ℕ, Bool, true, false, not, ◌&&◌, List, Option, some, String, leb, ltb, if◌then◌else◌, add_u32,
}
use sctl.Watchdog.State.{
  Symptom, searching, registered_no_data, not_registered, unresponsive, relay_problem,
  tunnel_reconnecting, internet_unreachable, modem_gone, unknown, WatchdogState, cooldown_elapsed,
}
use sctl.Watchdog.Snapshot.{WatchdogSnapshot, push_event, update_snapshot}
use sctl.Watchdog.Gate.{LteConfig, evaluate_usb_cycle_gate}

-- What the watchdog does to the device and tells others, in order.
pub data Effect : Type 0 where
  reregister airplane_cycle restart_interface usb_power_cycle : Effect
  apply_bands : List ℕ → Option ℕ → Effect
  logs : String → ℕ → Effect
  exhausted : ℕ → Effect
  reports : Effect

-- The watchdog's state with its snapshot.
pub record Watch : Type 0 where
  pub state : WatchdogState
  pub snapshot : WatchdogSnapshot

-- What the actions answer: whether `AT+COPS=0`, `AT+CFUN=0` and `AT+CFUN=1` succeed, the names of
-- what the interface restart and the USB cycle came to, and whether the module is listed. `now` is
-- the clock at the dispatch, `epoch` the time of day in seconds.
pub record ActionAnswers : Type 0 where
  pub now : ℕ
  pub epoch : ℕ
  pub cops : Bool
  pub cfun_off : Bool
  pub cfun_on : Bool
  pub restart : String
  pub usb : String
  pub sysfs_present : Bool

-- `continue`, or an action with its level.
pub data Dispatched : Type 0 where
  waits : Watch → Dispatched
  acts : String → ℕ → Watch → Effect → Dispatched

abbrev pub max_reregisters : ℕ
max_reregisters = 1

abbrev pub max_iface_restarts : ℕ
max_iface_restarts = 2

abbrev pub max_airplane_cycles : ℕ
max_airplane_cycles = 2

abbrev pub at_failure_skip_threshold : ℕ
at_failure_skip_threshold = 3

abbrev pub searching_action_threshold : ℕ
searching_action_threshold = 180

abbrev pub shows : Watch → String → ℕ → Watch
shows w status now = record w { snapshot = update_snapshot w.snapshot w.state status now }

-- `update_snapshot_event`
unfoldable pub notes : Watch → String → String → ℕ → Watch
notes w symptom action epoch = record w {
  state = record (w.state) { last_action = some action };
  snapshot = push_event w.snapshot symptom action epoch;
}

abbrev pub with_state : Watch → WatchdogState → Watch
with_state w s = record w { state = s }

unfoldable pub go_dormant : Watch → ℕ → Watch
go_dormant w now = shows (with_state w (record (w.state) { dormant = true })) "dormant" now

-- The failures of AT commands after one that succeeded, or not.
abbrev pub count_at : WatchdogState → Bool → WatchdogState
count_at s true = record s { consecutive_at_failures = 0 }
count_at s false = record s { consecutive_at_failures = add_u32 s.consecutive_at_failures 1 }

abbrev pub reregister_name : Bool → String
reregister_name true = "reregister"
reregister_name false = "reregister_failed"

abbrev pub airplane_name : Bool → Bool → String
airplane_name false on = "airplane_cycle_failed"
airplane_name true false = "airplane_cycle_partial"
airplane_name true true = "airplane_cycle"

-- `AT+CFUN=1` is only sent if `AT+CFUN=0` succeeded.
unfoldable pub action_airplane_cycle : WatchdogState → ActionAnswers → WatchdogState
action_airplane_cycle s a =
    if a.cfun_off then count_at (count_at s true) a.cfun_on else count_at s false

module _ (cfg : LteConfig) (disconnect_secs : ℕ) (a : ActionAnswers) where
  abbrev pub usb_allowed : Bool
  usb_allowed =
      evaluate_usb_cycle_gate cfg.max_escalation_level cfg.usb_cycle_evidence disconnect_secs
        a.sysfs_present

  -- `try_usb_cycle_gated`, after the cooldown of level 3.
  unfoldable pub last_resort : Watch → Dispatched
  last_resort w =
      if not (cooldown_elapsed w.state 3 a.now)
      then waits w
      else if usb_allowed
      then acts a.usb 3 w usb_power_cycle
      else waits (go_dormant w a.now)

  unfoldable pub cycle_radio : Watch → Dispatched
  unfolding action_airplane_cycle
  cycle_radio w =
      if not (cooldown_elapsed w.state 1 a.now)
      then waits w
      else (let s = record (w.state) { airplane_cycles = add_u32 w.state.airplane_cycles 1 } in
          acts (airplane_name a.cfun_off a.cfun_on) 1 (with_state w (action_airplane_cycle s a))
            airplane_cycle)

  unfoldable pub restart : Watch → Dispatched
  restart w =
      if not (cooldown_elapsed w.state 2 a.now)
      then waits w
      else acts a.restart 2
          (with_state w (record (w.state) { iface_restarts = add_u32 w.state.iface_restarts 1 }))
          restart_interface

  unfoldable pub register_again : Watch → Dispatched
  register_again w =
      if not (cooldown_elapsed w.state 0 a.now)
      then waits w
      else (let s = record (w.state) { reregisters = add_u32 w.state.reregisters 1 } in
          acts (reregister_name a.cops) 0 (with_state w (count_at s a.cops)) reregister)

  unfoldable pub on_searching : ℕ → Watch → Dispatched
  unfolding last_resort cycle_radio
  on_searching secs w =
      if ltb secs searching_action_threshold
      then waits (shows (notes w "searching" "wait" a.epoch) "waiting" a.now)
      else if leb max_airplane_cycles w.state.airplane_cycles
      then last_resort (shows w "acting" a.now)
      else cycle_radio w

  unfoldable pub on_no_data : Watch → Dispatched
  unfolding last_resort cycle_radio restart
  on_no_data w =
      if leb max_iface_restarts w.state.iface_restarts
      then (if leb max_airplane_cycles w.state.airplane_cycles
          then last_resort w
          else cycle_radio w)
      else restart w

  unfoldable pub on_not_registered : Watch → Dispatched
  unfolding last_resort cycle_radio register_again
  on_not_registered w =
      if ltb disconnect_secs cfg.notregistered_grace_secs
      then waits (shows w "waiting" a.now)
      else if ltb w.state.reregisters max_reregisters
      then register_again w
      else if ltb w.state.airplane_cycles max_airplane_cycles
      then cycle_radio w
      else last_resort w

  -- The failure has been counted in `w`.
  unfoldable pub on_unresponsive : Watch → Dispatched
  unfolding last_resort restart
  on_unresponsive w =
      if ltb w.state.consecutive_at_failures at_failure_skip_threshold
      then (if ltb w.state.iface_restarts max_iface_restarts then restart w else waits w)
      else last_resort w

  unfoldable pub on_unknown : Watch → Dispatched
  unfolding last_resort cycle_radio
  on_unknown w =
      if not cfg.unknown_action.airplane_cycle && not cfg.unknown_action.escalate
      then waits (shows (notes w "unknown" "wait" a.epoch) "waiting" a.now)
      else if cfg.unknown_action.airplane_cycle && ltb w.state.airplane_cycles max_airplane_cycles
      then cycle_radio w
      else if cfg.unknown_action.escalate
      then last_resort w
      else waits (shows w "waiting" a.now)

  unfoldable pub dispatch : Symptom → Watch → Dispatched
  unfolding on_searching on_no_data on_not_registered on_unresponsive on_unknown
  dispatch (searching secs) w = on_searching secs w
  dispatch registered_no_data w = on_no_data w
  dispatch not_registered w = on_not_registered w
  dispatch unresponsive w = on_unresponsive (with_state w (count_at w.state false))
  dispatch relay_problem w = waits (shows (notes w "relay_problem" "wait" a.epoch) "waiting" a.now)
  dispatch tunnel_reconnecting w = waits (shows w "waiting" a.now)
  dispatch internet_unreachable w =
      waits (shows (notes w "internet_unreachable" "wait" a.epoch) "waiting" a.now)
  dispatch modem_gone w = waits (go_dormant (notes w "modem_gone" "wait" a.epoch) a.now)
  dispatch unknown w = on_unknown w
