-- ===== src/Watchdog/Usb.antt =====
-- server/src/lte_watchdog.rs: when a round cycles the power of the modem's USB port.
use sctl.Prelude.{◌-◌, ◌/◌, ℕ, ◌-◌, ◌≤◌, ◌≡◌, Bool, ◌&&◌, true, false}
use sctl.Watchdog.Gate.{LteConfig}
use sctl.Watchdog.Dispatch.{Watch, usb_allowed}
use sctl.Watchdog.Round.{TickAnswers, Round, or_now}
use sctl.Watchdog.Actions.{cycles_usb}

-- The conditions of `evaluate_usb_cycle_gate`, spelled out.
abbrev pub Evidence : LteConfig → ℕ → TickAnswers → Type 0
Evidence cfg secs a =
    (4 ≤ cfg.max_escalation_level)
    × (cfg.usb_cycle_evidence.min_sustained_secs ≤ secs)
    × ((cfg.usb_cycle_evidence.require_sysfs_absent && a.action.sysfs_present) ≡ false)

abbrev Quiet : Bool × Round → Type 0
Quiet r = cycles_usb r.1.effects ≡ false

module _ (cfg : LteConfig) (secs : ℕ) (a : TickAnswers) where
  abbrev Cautious : Round → Type 0
  Cautious r = cycles_usb r.effects ≡ true → usb_allowed cfg secs a.action ≡ true

-- The seconds since the recorded start of the outage. A connection that is too short for a reset
-- does not end the outage, and so counts as a part of it.
abbrev pub down_for : Watch → ℕ → ℕ
down_for w now = (now - or_now w.state.tunnel_disconnect_since now) / 1000

abbrev Powers : LteConfig → Watch → TickAnswers → Round → Type 0
Powers cfg w a r =
    cycles_usb r.effects ≡ true → (a.connected ≡ false) × Evidence cfg (down_for w a.now) a
