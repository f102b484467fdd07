-- ===== src/Tunnel/ReconnectTests.antt =====
-- server/src/tunnel/client.rs: the loop on examples.
use sctl.Prelude.{ℕ, ◌≡◌, refl, false, List, [], ◌∷◌, ◌≤◌, arith, All, length, drop, replicate}
use sctl.Tunnel.Events.{TunnelStats}
use sctl.Tunnel.Reconnect.{
  TunnelConfig, Connection, Outcome, ended, failed, permanent, transient, relay_shutdown, start,
  tunnel_client_loop, iteration, react, sleep_after, is_flapping, is_unavailable,
}
use sctl.Tunnel.Backoff.{tried, longest, tunnel_client_loop-ends}
use sctl.Tunnel.Doubling.{doubling, tunnel_client_loop-doubling}
use sctl.Tunnel.Flapping.{tunnel_client_loop-flapping}

abbrev config : TunnelConfig
config = record { reconnect_delay_secs = 2; reconnect_max_delay_secs = 30 }

abbrev stats : TunnelStats
stats = record {
  is_connected = false;
  reconnecting = false;
  reconnects = 0;
  current_uptime_ms = 0;
  events = [];
  events_dirty = false;
}

abbrev connection : Outcome → ℕ → Connection
connection o d = record { started = 0; run = λ s. s; outcome = o; finished = d; duration_secs = d }

-- An attempt that times out, one whose interface is down, a relay that shuts down, a wrong key.
abbrev timeout : Connection
timeout = connection (failed (transient "TCP connect timed out")) 31

abbrev no_interface : Connection
no_interface = connection (failed (transient "bind_address wwan0 not available")) 0

abbrev shutdown : Connection
shutdown = connection (ended relay_shutdown) 12

abbrev wrong_key : Connection
wrong_key = connection (failed (permanent "invalid tunnel key")) 1

abbrev timeouts : List Connection
timeouts = timeout ∷ timeout ∷ timeout ∷ timeout ∷ timeout ∷ timeout ∷ []

timeouts-waits :
    tunnel_client_loop config (start config stats) timeouts ≡ 2 ∷ 4 ∷ 8 ∷ 16 ∷ 30 ∷ 30 ∷ []
unfolding tunnel_client_loop iteration react sleep_after is_flapping is_unavailable
timeouts-waits = refl

-- The loop stops at the wrong key and leaves out what follows.
wrong_key-waits :
    tunnel_client_loop config
      (start config stats)
      (shutdown ∷ no_interface ∷ shutdown ∷ wrong_key ∷ timeout ∷ [])
    ≡ 0 ∷ 5 ∷ 60 ∷ []
unfolding tunnel_client_loop iteration react sleep_after is_flapping is_unavailable
wrong_key-waits = refl

tunnel_client_loop-ends_example :
    (length (tunnel_client_loop config (start config stats) (shutdown ∷ wrong_key ∷ timeout ∷ []))
      ≡ length (tried (shutdown ∷ wrong_key ∷ timeout ∷ [])))
    × All
        (λ w. w ≤ longest config)
        (tunnel_client_loop config (start config stats) (shutdown ∷ wrong_key ∷ timeout ∷ []))
tunnel_client_loop-ends_example =
    tunnel_client_loop-ends config stats (shutdown ∷ wrong_key ∷ timeout ∷ [])

tunnel_client_loop-doubling_example :
    tunnel_client_loop config (start config stats) (timeout ∷ timeout ∷ timeout ∷ [])
    ≡ doubling 2 30 3
unfolding is_unavailable
tunnel_client_loop-doubling_example =
    tunnel_client_loop-doubling config stats (timeout ∷ timeout ∷ timeout ∷ []) (omega arith)
      ((refl, omega arith), ((refl, omega arith), ((refl, omega arith), tt)))

tunnel_client_loop-flapping_example :
    drop 2 (
      tunnel_client_loop config
        (start config stats)
        (no_interface ∷ no_interface ∷ no_interface ∷ shutdown ∷ []))
    ≡ replicate 2 60
tunnel_client_loop-flapping_example =
    tunnel_client_loop-flapping config (start config stats) no_interface no_interface
      (no_interface ∷ shutdown ∷ [])
      ((refl, omega arith), ((refl, omega arith), ((refl, omega arith), ((refl, omega arith), tt))))
