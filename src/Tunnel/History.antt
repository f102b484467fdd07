-- ===== src/Tunnel/History.antt =====
-- server/src/tunnel/relay.rs: the history of the devices' connections. Times are seconds.
use sctl.Prelude.{
  ℕ, Bool, true, false, ◌&&◌, List, [], ◌∷◌, Option, none, some, String, str_eq, if◌then◌else◌,
}
use sctl.Prelude.Ring.{push_bounded}

pub record ConnectionSession : Type 0 where
  pub serial : String
  pub connected_at : ℕ
  pub disconnected_at : Option ℕ
  pub reason : Option String
  pub last_heartbeat_age_ms : Option ℕ

abbrev pub max_connection_history : ℕ
max_connection_history = 100

abbrev pub opened : String → ℕ → ConnectionSession
opened serial now = record {
  serial = serial;
  connected_at = now;
  disconnected_at = none;
  reason = none;
  last_heartbeat_age_ms = none;
}

unfoldable pub record_connect : List ConnectionSession → String → ℕ → List ConnectionSession
record_connect sessions serial now =
    push_bounded max_connection_history sessions (opened serial now)

abbrev pub is_open : ConnectionSession → Bool
is_open s = elim s.disconnected_at [ none ↦ true | some t ↦ false ]

abbrev pub closed : String → Option ℕ → ℕ → ConnectionSession → ConnectionSession
closed reason age now s = record s {
  disconnected_at = some now;
  reason = some reason;
  last_heartbeat_age_ms = age;
}

-- The search from the back, and whether it has found a session.
unfoldable pub close_last :
    String → String → Option ℕ → ℕ → List ConnectionSession → List ConnectionSession × Bool
close_last serial reason age now [] = ([], false)
close_last serial reason age now (s ∷ ss) =
    let rest = close_last serial reason age now ss in
    if rest.1
    then (s ∷ rest.0, true)
    else if str_eq s.serial serial && is_open s
    then (closed reason age now s ∷ rest.0, true)
    else (s ∷ rest.0, false)

unfoldable pub record_disconnect :
    List ConnectionSession → String → String → Option ℕ → ℕ → List ConnectionSession
unfolding close_last
record_disconnect sessions serial reason age now = (close_last serial reason age now sessions).0
