-- ===== src/Tunnel/Tests.antt =====
-- server/src/tunnel/mod.rs, server/src/tunnel/relay.rs: frames and connections on examples.
use sctl.Prelude.{string_eq, false, ℕ, ◌≡◌, refl, List, [], ◌∷◌, Option, none, some, arith}
use sctl.Prelude.Map.{lookup, remove}
use sctl.Tunnel.History.{opened, closed, record_disconnect, close_last}
use sctl.Tunnel.Registry.{RelayState, ConnectedDevice, lost, new_device, register, end_handler}
use sctl.Tunnel.Requests.{
  registers, begins, takes, beats, sweeps, run, sweep_dead_devices, begin_request, take_request,
  heartbeat, evict, device_not_found,
}
use sctl.Tunnel.Limits.{Sound, run-Capped, sweep-Kept}
use sctl.Tunnel.Replacing.{old_ends, newer-stays}
use sctl.Tunnel.Frame.{encode_binary_frame, decode_binary_frame, decode_rest, decode-encode}

-- A header is one byte.
abbrev print_header : ℕ → List ℕ
print_header n = n ∷ []

abbrev parse_header : List ℕ → Option ℕ
parse_header (n ∷ []) = some n
parse_header _ = none

decode-encode_example :
    decode_binary_frame print_header parse_header
      (encode_binary_frame print_header parse_header 7 (1 ∷ 2 ∷ []))
    ≡ some (7, 1 ∷ 2 ∷ [])
decode-encode_example = decode-encode print_header parse_header 7 (1 ∷ 2 ∷ []) refl (omega arith)

frame_of_header :
    encode_binary_frame print_header parse_header 7 (9 ∷ []) ≡ 0 ∷ 0 ∷ 0 ∷ 1 ∷ 7 ∷ 9 ∷ []
unfolding encode_binary_frame
frame_of_header = refl

frame_cut_off : decode_binary_frame print_header parse_header (0 ∷ 0 ∷ 0 ∷ 2 ∷ 7 ∷ []) ≡ none
unfolding decode_binary_frame decode_rest
frame_cut_off = refl

header_too_long : decode_binary_frame print_header parse_header (0 ∷ 16 ∷ 0 ∷ 1 ∷ 7 ∷ []) ≡ none
unfolding decode_binary_frame decode_rest
header_too_long = refl

frame_too_short : decode_binary_frame print_header parse_header (0 ∷ 0 ∷ 0 ∷ []) ≡ none
unfolding decode_binary_frame
frame_too_short = refl

-- A device on its first connection, with a request that waits.
abbrev device : ConnectedDevice
device = record {
  connection_id = 1;
  api_key = "key";
  pending_requests = ("r", 5) ∷ [];
  last_heartbeat_ms = 40;
}

abbrev relay : RelayState
relay = record {
  devices = ("d", device) ∷ [];
  heartbeat_timeout_secs = 20;
  history = opened "d" 0 ∷ [];
  next_connection_id = 2;
}

newer-stays_example :
    (lookup "d" (old_ends relay "d" "key" 60 1 1 false "closed" 70 2).0.devices
      ≡ some (new_device 2 "key" 60))
    × ((old_ends relay "d" "key" 60 1 1 false "closed" 70 2).1 ≡ [])
newer-stays_example = newer-stays relay "d" "key" 60 1 1 false "closed" 70 2 (λ e. omega (arith, e))

waiting_answered : (register relay "d" "key" 60 1).1 ≡ lost 5 "DEVICE_RECONNECTING" ∷ []
unfolding register lookup
waiting_answered = refl

-- The end of the only connection.
device_gone : end_handler relay "d" 1 false "closed" 70 2 ≡ (
  record relay { devices = []; history = closed "closed" (some 30) 2 (opened "d" 0) ∷ [] },
  lost 5 "DEVICE_DISCONNECTED" ∷ [],
)
unfolding end_handler lookup remove record_disconnect close_last
device_gone = refl

abbrev no_devices : RelayState
no_devices = record relay { devices = []; history = [] }

run-Capped_example : Sound (
    run
      (registers "d" "key" 0 0
        ∷ begins "d" "r" 5
        ∷ beats "d" 2 9
        ∷ takes "d" 2 "r"
        ∷ sweeps 99000 99
        ∷ [])
      no_devices)
run-Capped_example =
    run-Capped
      (registers "d" "key" 0 0
        ∷ begins "d" "r" 5
        ∷ beats "d" 2 9
        ∷ takes "d" 2 "r"
        ∷ sweeps 99000 99
        ∷ [])
      no_devices refl

sweep-Kept_example : lookup "d" (sweep_dead_devices relay 20041 20).0.devices ≡ none
unfolding lookup
sweep-Kept_example = sweep-Kept relay 20041 20 "d" (refl, tt)

nobody_there : (begin_request relay "e" "r" 5).1 ≡ device_not_found
unfolding begin_request lookup
nobody_there = refl

-- A response ends the wait of its caller.
caller_found : (take_request relay "d" 1 "r").1 ≡ some 5
unfolding take_request lookup
caller_found = refl

-- A heartbeat of a connection that has been replaced does not count.
old_heartbeat : heartbeat relay "d" 7 90 ≡ relay
unfolding heartbeat lookup
old_heartbeat = refl

-- The caller of an evicted device is answered.
evicted_answered : (sweep_dead_devices relay 20041 20).1 ≡ lost 5 "DEVICE_DISCONNECTED" ∷ []
unfolding sweep_dead_devices evict
evicted_answered = refl
