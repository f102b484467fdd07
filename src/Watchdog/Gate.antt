-- ===== src/Watchdog/Gate.antt =====
-- server/src/lte_watchdog.rs: the diagnosis, and the gate before a USB power cycle. What the modem,
-- the kernel and the network answer is an argument.
use sctl.Prelude.{
  ℕ, ◌-◌, ◌/◌, Bool, true, false, not, ◌&&◌, List, Option, none, some, ltb, if◌then◌else◌,
}
use sctl.Watchdog.Cereg.{
  RegistrationStatus, not_registered, registered_home, searching, denied, unknown, registered_roam,
  parse_cereg, then_option,
}
use sctl.Watchdog.State
use sctl.Watchdog.State.{
  Symptom, WatchdogState, registered_no_data, unresponsive, relay_problem, tunnel_reconnecting,
  internet_unreachable, modem_gone,
}

-- `at` says whether `AT` is answered, `cereg` is the answer to `AT+CEREG?` if there is one,
-- `enumerated` whether the kernel lists the module.
pub record Observed : Type 0 where
  pub at_ok : Bool
  pub enumerated : Bool
  pub reconnecting : Bool
  pub has_ipv4 : Bool
  pub cereg : Option (List ℕ)
  pub reachable : Bool

abbrev pub secs_since : Option ℕ → ℕ → ℕ
secs_since none now = 0
secs_since (some t) now = (now - t) / 1000

-- The data path of a registered modem.
unfoldable pub data_path : Observed → Symptom
data_path o =
    if not o.has_ipv4
    then registered_no_data
    else if o.reachable
    then relay_problem
    else internet_unreachable

unfoldable pub by_status : Observed → ℕ → Option RegistrationStatus → Symptom
unfolding data_path
by_status o secs none = State.unknown
by_status o secs (some unknown) = State.unknown
by_status o secs (some searching) = State.searching secs
by_status o secs (some not_registered) = State.not_registered
by_status o secs (some denied) = State.not_registered
by_status o secs (some registered_home) = data_path o
by_status o secs (some registered_roam) = data_path o

unfoldable pub diagnose : Observed → WatchdogState → ℕ → Symptom × Option RegistrationStatus
unfolding by_status
diagnose o s now =
    if not o.at_ok
    then ((if o.enumerated then unresponsive else modem_gone), none)
    else if o.reconnecting && o.has_ipv4
    then (tunnel_reconnecting, none)
    else (let reg_status = then_option o.cereg parse_cereg in
        (by_status o (secs_since s.searching_since now) reg_status, reg_status))

pub record UsbCycleEvidence : Type 0 where
  pub min_sustained_secs : ℕ
  pub require_sysfs_absent : Bool

pub record UnknownAction : Type 0 where
  pub airplane_cycle : Bool
  pub escalate : Bool

-- The settings of `LteConfig` that the watchdog reads.
pub record LteConfig : Type 0 where
  pub watchdog_grace_secs : ℕ
  pub max_escalation_level : ℕ
  pub usb_cycle_evidence : UsbCycleEvidence
  pub unknown_action : UnknownAction
  pub notregistered_grace_secs : ℕ

-- `Ok(())` is `true`; the reason of a refusal is a text for the log.
unfoldable pub evaluate_usb_cycle_gate : ℕ → UsbCycleEvidence → ℕ → Bool → Bool
evaluate_usb_cycle_gate max_escalation_level evidence disconnect_secs sysfs_present =
    if ltb max_escalation_level 4
    then false
    else if ltb disconnect_secs evidence.min_sustained_secs
    then false
    else if evidence.require_sysfs_absent && sysfs_present
    then false
    else true
