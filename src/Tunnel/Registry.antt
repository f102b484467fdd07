-- ===== src/Tunnel/Registry.antt =====
-- server/src/tunnel/relay.rs: the devices that are connected to the relay. Of a device, the model
-- keeps what the registry itself uses; a pending request has the number of its caller. Clocks read
-- milliseconds (`now_ms`) and seconds (`now`).
use sctl.Prelude.{
  ℕ, ◌+◌, ◌-◌, ◌%◌, ◌^◌, Bool, false, not, ◌||◌, List, [], ◌∷◌, Option, none, some, String, ◌==◌,
  if◌then◌else◌, string_eq,
}
use sctl.Prelude.Map.{lookup, insert, remove, map_option}
use sctl.Tunnel.History.{ConnectionSession, record_connect, record_disconnect}

pub record ConnectedDevice : Type 0 where
  pub connection_id : ℕ
  pub api_key : String
  pub pending_requests : List (String × ℕ)
  pub last_heartbeat_ms : ℕ

pub record RelayState : Type 0 where
  pub devices : List (String × ConnectedDevice)
  pub heartbeat_timeout_secs : ℕ
  pub history : List ConnectionSession
  pub next_connection_id : ℕ

-- What a waiting caller gets: an error of status 502 with its code.
pub data Answer : Type 0 where
  lost : ℕ → String → Answer

-- Every pending request is answered.
abbrev pub answers_to : String → List (String × ℕ) → List Answer
answers_to code [] = []
answers_to code ((id, caller) ∷ ps) = lost caller code ∷ answers_to code ps

abbrev pub pending_of : Option ConnectedDevice → List (String × ℕ)
pending_of none = []
pending_of (some d) = d.pending_requests

abbrev pub new_device : ℕ → String → ℕ → ConnectedDevice
new_device id api_key now_ms = record {
  connection_id = id;
  api_key = api_key;
  pending_requests = [];
  last_heartbeat_ms = now_ms;
}

-- A device registers, after the checks of its first message; one with the same serial is replaced,
-- and its pending requests are answered.
unfoldable pub register : RelayState → String → String → ℕ → ℕ → RelayState × List Answer
register st serial api_key now_ms now = (
  record st {
    devices = insert serial (new_device st.next_connection_id api_key now_ms) st.devices;
    history = record_connect st.history serial now;
    next_connection_id = (st.next_connection_id + 1) % 2 ^ 64;
  },
  answers_to "DEVICE_RECONNECTING" (pending_of (lookup serial st.devices)),
)

abbrev pub is_newer : ℕ → Option ConnectedDevice → Bool
is_newer id none = false
is_newer id (some d) = not (d.connection_id == id)

abbrev pub heartbeat_age : ℕ → Option ConnectedDevice → Option ℕ
heartbeat_age now_ms o = map_option (λ d. now_ms - d.last_heartbeat_ms) o

-- The end of a device's handler. `replaced` says that it was told to shut down; if the map has a
-- newer connection for the serial, the device is left alone.
unfoldable pub end_handler :
    RelayState → String → ℕ → Bool → String → ℕ → ℕ → RelayState × List Answer
end_handler st serial id replaced reason now_ms now =
    let d = lookup serial st.devices in
    if replaced || is_newer id d
    then (record st { history = record_disconnect st.history serial "replaced" none now }, [])
    else (
      record st {
        devices = remove serial st.devices;
        history = record_disconnect st.history serial reason (heartbeat_age now_ms d) now;
      },
      answers_to "DEVICE_DISCONNECTED" (pending_of d),
    )
