-- ===== src/Tunnel/Events.antt =====
-- server/src/state.rs: the statistics of the tunnel's client, as far as its loop changes them.
use sctl.Prelude.{ℕ, Bool, true, String, List}
use sctl.Prelude.Ring.{push_bounded}

abbrev pub max_tunnel_events : ℕ
max_tunnel_events = 200

pub data TunnelEventType : Type 0 where
  connected disconnected pong_timeout writer_failed reconnect_attempt watchdog_action :
      TunnelEventType

-- A detail stands for its text: `attempt #n`, `permanent: msg`, or the text itself.
pub data Detail : Type 0 where
  attempt : ℕ → Detail
  permanent_error : String → Detail
  plain : String → Detail

pub record ConnectionEvent : Type 0 where
  pub timestamp : ℕ
  pub event_type : TunnelEventType
  pub detail : Detail

-- `is_connected` is the source's `connected`; the counters of messages are left out.
pub record TunnelStats : Type 0 where
  pub is_connected : Bool
  pub reconnecting : Bool
  pub reconnects : ℕ
  pub current_uptime_ms : ℕ
  pub events : List ConnectionEvent
  pub events_dirty : Bool

unfoldable pub push_event : ℕ → TunnelEventType → Detail → TunnelStats → TunnelStats
push_event now t d s = record s {
  events =
      push_bounded max_tunnel_events s.events
        (record { timestamp = now; event_type = t; detail = d });
  events_dirty = true;
}
