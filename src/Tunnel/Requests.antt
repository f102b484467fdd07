-- ===== src/Tunnel/Requests.antt =====
-- server/src/tunnel/relay.rs: the requests that wait for a device's response, and the eviction of
-- devices that send no heartbeat. The queue to the device and the clock are arguments.
use sctl.Prelude.{
  ℕ, ◌-◌, ◌*◌, ◌==◌, Bool, List, [], ◌∷◌, ◌++◌, Option, none, some, String, leb, ltb, if◌then◌else◌,
  string_eq, length,
}
use sctl.Prelude.Map.{lookup, insert, remove}
use sctl.Tunnel.History.{ConnectionSession, record_disconnect}
use sctl.Tunnel.Registry.{
  RelayState, ConnectedDevice, Answer, answers_to, register, end_handler, heartbeat_age,
}

abbrev pub max_pending_requests : ℕ
max_pending_requests = 256

pub data Begun : Type 0 where
  device_not_found overloaded : Begun
  -- The connection that the request went to.
  waits_on : ℕ → Begun

abbrev pub with_pending : RelayState → String → ConnectedDevice → List (String × ℕ) → RelayState
with_pending st serial d pending = record st {
  devices = insert serial (record d { pending_requests = pending }) st.devices;
}

abbrev pub begin_at : RelayState → String → String → ℕ → Option ConnectedDevice → RelayState × Begun
begin_at st serial request_id caller none = (st, device_not_found)
begin_at st serial request_id caller (some d) =
    if leb max_pending_requests (length d.pending_requests) then (st, overloaded) else (
      with_pending st serial d (insert request_id caller d.pending_requests),
      waits_on d.connection_id,
    )

-- `tunnel_request` up to the wait for the response.
unfoldable pub begin_request : RelayState → String → String → ℕ → RelayState × Begun
begin_request st serial request_id caller =
    begin_at st serial request_id caller (lookup serial st.devices)

abbrev pub take_at :
    RelayState → String → ℕ → String → Option ConnectedDevice → RelayState × Option ℕ
take_at st serial id request_id none = (st, none)
take_at st serial id request_id (some d) =
    if d.connection_id == id
    then (
      with_pending st serial d (remove request_id d.pending_requests),
      lookup request_id d.pending_requests,
    )
    else (st, none)

-- The removal of a request from the pending ones of a connection, with the caller that waited: a
-- response of the device, a failed or stalled queue, or the end of the time to respond. The pending
-- requests of a replaced connection are no longer in the registry.
unfoldable pub take_request : RelayState → String → ℕ → String → RelayState × Option ℕ
take_request st serial id request_id = take_at st serial id request_id (lookup serial st.devices)

abbrev pub beat_at : RelayState → String → ℕ → ℕ → Option ConnectedDevice → RelayState
beat_at st serial id now_ms none = st
beat_at st serial id now_ms (some d) =
    if d.connection_id == id
    then record st { devices = insert serial (record d { last_heartbeat_ms = now_ms }) st.devices }
    else st

-- A message of the device counts as a heartbeat of its connection.
unfoldable pub heartbeat : RelayState → String → ℕ → ℕ → RelayState
heartbeat st serial id now_ms = beat_at st serial id now_ms (lookup serial st.devices)

abbrev pub is_silent : ℕ → ℕ → ConnectedDevice → Bool
is_silent timeout_secs now_ms d = ltb (timeout_secs * 1000) (now_ms - d.last_heartbeat_ms)

abbrev pub Devices : Type 0
Devices = List (String × ConnectedDevice)

-- The devices that stay, and those that are evicted.
unfoldable pub evict : ℕ → ℕ → Devices → Devices × Devices
evict timeout_secs now_ms [] = ([], [])
evict timeout_secs now_ms ((serial, d) ∷ m) =
    let rest = evict timeout_secs now_ms m in
    if is_silent timeout_secs now_ms d
    then (rest.0, (serial, d) ∷ rest.1)
    else ((serial, d) ∷ rest.0, rest.1)

abbrev pub evicted_history : ℕ → ℕ → Devices → List ConnectionSession → List ConnectionSession
evicted_history now_ms now [] history = history
evicted_history now_ms now ((serial, d) ∷ m) history =
    evicted_history now_ms now m
      (record_disconnect history serial "heartbeat_timeout" (heartbeat_age now_ms (some d)) now)

abbrev pub evicted_answers : Devices → List Answer
evicted_answers [] = []
evicted_answers ((serial, d) ∷ m) =
    answers_to "DEVICE_DISCONNECTED" d.pending_requests ++ evicted_answers m

unfoldable pub sweep_dead_devices : RelayState → ℕ → ℕ → RelayState × List Answer
unfolding evict
sweep_dead_devices st now_ms now =
    let split = evict st.heartbeat_timeout_secs now_ms st.devices in
    (
      record st { devices = split.0; history = evicted_history now_ms now split.1 st.history },
      evicted_answers split.1,
    )

pub data Step : Type 0 where
  registers : String → String → ℕ → ℕ → Step
  ends : String → ℕ → Bool → String → ℕ → ℕ → Step
  begins : String → String → ℕ → Step
  takes : String → ℕ → String → Step
  beats : String → ℕ → ℕ → Step
  sweeps : ℕ → ℕ → Step

unfoldable pub perform : Step → RelayState → RelayState
unfolding register end_handler begin_request take_request heartbeat sweep_dead_devices
perform (registers serial key now_ms now) st = (register st serial key now_ms now).0
perform (ends serial id replaced reason now_ms now) st =
    (end_handler st serial id replaced reason now_ms now).0
perform (begins serial request_id caller) st = (begin_request st serial request_id caller).0
perform (takes serial id request_id) st = (take_request st serial id request_id).0
perform (beats serial id now_ms) st = heartbeat st serial id now_ms
perform (sweeps now_ms now) st = (sweep_dead_devices st now_ms now).0

unfoldable pub run : List Step → RelayState → RelayState
unfolding perform
run [] st = st
run (s ∷ steps) st = run steps (perform s st)
