-- ===== src/Tunnel/Backoff.antt =====
-- server/src/tunnel/client.rs: how long the loop sleeps between connections.
use sctl.Prelude.{
  ℕ, suc, ◌≤◌, ◌≡◌, refl, sym, ap, ◌∙◌, max, Bool, true, false, List, [], ◌∷◌, arith, if◌then◌else◌,
  if-cases, length, All,
}
use sctl.Tunnel.Events.{TunnelStats}
use sctl.Tunnel.Reconnect.{
  TunnelConfig, Connection, Client, Step, stopped, slept, Outcome, ended, failed, permanent,
  transient, relay_shutdown, ws_close, pong_timeout, writer_exit, read_error, is_unavailable,
  sleep_after, react, iteration, start, then_wait, tunnel_client_loop, connecting,
}

abbrev pub is_permanent : Outcome → Bool
is_permanent (ended reason) = false
is_permanent (failed (permanent msg)) = true
is_permanent (failed (transient msg)) = false

-- The connections before the first permanent error.
abbrev pub tried : List Connection → List Connection
tried [] = []
tried (k ∷ ks) = if is_permanent k.outcome then [] else k ∷ tried ks

abbrev pub longest : TunnelConfig → ℕ
longest cfg = max 60 (max cfg.reconnect_delay_secs cfg.reconnect_max_delay_secs)

-- What a step leaves, when the error was permanent and when it was not.
abbrev Ends : TunnelConfig → Bool → Step → Type 0
Ends cfg b (stopped s) = b ≡ true
Ends cfg b (slept wait next) = (b ≡ false) × ((wait ≤ longest cfg) × (next.delay ≤ longest cfg))

sleep_after-Ends :
    (cfg : TunnelConfig) (c : Client) (k : Connection) (s : TunnelStats) (w : ℕ) (e : Bool)
    → w ≤ longest cfg
    → Ends cfg false (sleep_after cfg c k s w e)
unfolding sleep_after
sleep_after-Ends cfg c k s w e h = (refl, (ground (arith, h), ground (arith, h)))

react-Ends :
    (cfg : TunnelConfig) (c : Client) (k : Connection) (s : TunnelStats) (o : Outcome)
    → c.delay ≤ longest cfg
    → Ends cfg (is_permanent o) (react cfg c k s o)
unfolding react
react-Ends cfg c k s (ended relay_shutdown) h = sleep_after-Ends cfg c k _ 0 false (omega arith)
react-Ends cfg c k s (ended ws_close) h = sleep_after-Ends cfg c k _ 0 false (omega arith)
react-Ends cfg c k s (ended pong_timeout) h = sleep_after-Ends cfg c k _ 0 false (omega arith)
react-Ends cfg c k s (ended writer_exit) h = sleep_after-Ends cfg c k _ 0 false (omega arith)
react-Ends cfg c k s (ended read_error) h = sleep_after-Ends cfg c k _ 0 false (omega arith)
react-Ends cfg c k s (failed (permanent msg)) h = refl
react-Ends cfg c k s (failed (transient msg)) h =
    if-cases (Ends cfg false) (is_unavailable msg)
      (λ _. sleep_after-Ends cfg c k _ 5 false (omega arith))
      (λ _. sleep_after-Ends cfg c k _ c.delay true h)

abbrev Waits : TunnelConfig → ℕ → List ℕ → Type 0
Waits cfg n ws = (length ws ≡ n) × All (λ w. w ≤ longest cfg) ws

then_wait-Waits :
    (cfg : TunnelConfig) (rest : Client → List ℕ) (k : Connection) (ks : List Connection)
    (st : Step)
    → Ends cfg (is_permanent k.outcome) st
    → ((c : Client) → c.delay ≤ longest cfg → Waits cfg (length (tried ks)) (rest c))
    → Waits cfg (length (tried (k ∷ ks))) (then_wait rest st)
then_wait-Waits cfg rest k ks (stopped s) e f =
    (ap (λ b. length (if b then [] else k ∷ tried ks)) (sym e), tt)
then_wait-Waits cfg rest k ks (slept wait next) (e, (w, d)) f = (
  ap suc (f next d).0 ∙ ap (λ b. length (if b then [] else k ∷ tried ks)) (sym e),
  (w, (f next d).1),
)

tunnel_client_loop-Waits :
    (cfg : TunnelConfig) (ks : List Connection) (c : Client)
    → c.delay ≤ longest cfg
    → Waits cfg (length (tried ks)) (tunnel_client_loop cfg c ks)
unfolding tunnel_client_loop iteration
tunnel_client_loop-Waits cfg [] c h = (refl, tt)
tunnel_client_loop-Waits cfg (k ∷ ks) c h =
    then_wait-Waits cfg (λ next. tunnel_client_loop cfg next ks) k ks (iteration cfg c k)
      (react-Ends cfg c k (connecting c k) k.outcome h) (tunnel_client_loop-Waits cfg ks)

-- The loop ends at the first permanent error and at no other: it sleeps once after each connection
-- before that one. No wait exceeds the largest of a minute and the two configured delays.
pub tunnel_client_loop-ends :
    (cfg : TunnelConfig) (s : TunnelStats) (ks : List Connection)
    → (length (tunnel_client_loop cfg (start cfg s) ks) ≡ length (tried ks))
      × All (λ w. w ≤ longest cfg) (tunnel_client_loop cfg (start cfg s) ks)
tunnel_client_loop-ends cfg s ks = tunnel_client_loop-Waits cfg ks (start cfg s) (omega arith)
