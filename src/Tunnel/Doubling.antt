-- ===== src/Tunnel/Doubling.antt =====
-- server/src/tunnel/client.rs: the waits that double.
use sctl.Prelude.{
  ℕ, zero, suc, ◌*◌, ◌≤◌, ◌≡◌, refl, ap, ap₂, ◌∙◌, min, Bool, true, false, not, List, [], ◌∷◌, ◌++◌,
  arith, if-cases, length, take, All,
}
use sctl.Prelude.Ring.{push_bounded}
use sctl.Tunnel.Events.{TunnelStats}
use sctl.Tunnel.Reconnect.{
  TunnelConfig, Connection, Client, Step, stopped, slept, Outcome, ended, failed, permanent,
  transient, is_unavailable, is_flapping, all_short, sleep_after, react, iteration, start,
  connecting, then_wait, tunnel_client_loop, flap_window,
}
use mathlib.Core.List.{reverse, reverse-append}

-- A refusal or a timeout, while the interface is there.
abbrev pub is_transient : Outcome → Bool
is_transient (ended reason) = false
is_transient (failed (permanent msg)) = false
is_transient (failed (transient msg)) = not (is_unavailable msg)

-- `w`, `2 * w`, `4 * w` and so on, each cut at `m`.
abbrev pub doubling : ℕ → ℕ → ℕ → List ℕ
doubling w m zero = []
doubling w m (suc n) = min w m ∷ doubling (w * 2) m n

is_flapping-long : (ds : List ℕ) (d : ℕ) → 30 ≤ d → is_flapping (ds ++ (d ∷ [])) ≡ false
unfolding is_flapping
is_flapping-long ds d h =
    let e : all_short (take 3 (reverse (ds ++ (d ∷ [])))) ≡ false =
      ap (λ xs. all_short (take 3 xs)) (reverse-append ds (d ∷ [])) ∙ ground (arith, h) in
    ground (arith, e)

-- A step that sleeps for the client's delay and doubles it.
abbrev Doubles : TunnelConfig → Client → Step → Type 0
Doubles cfg c (stopped s) = ⊥
Doubles cfg c (slept wait next) =
    (wait ≡ c.delay) × (next.delay ≡ min (c.delay * 2) cfg.reconnect_max_delay_secs)

sleep_after-Doubles :
    (cfg : TunnelConfig) (c : Client) (k : Connection) (s : TunnelStats)
    → 30 ≤ k.duration_secs
    → Doubles cfg c (sleep_after cfg c k s c.delay true)
unfolding sleep_after
sleep_after-Doubles cfg c k s h =
    let e : is_flapping (push_bounded flap_window c.connection_durations k.duration_secs) ≡ false =
      is_flapping-long _ k.duration_secs h in
    (ground (arith, e), ground (arith, e))

react-Doubles :
    (cfg : TunnelConfig) (c : Client) (k : Connection) (s : TunnelStats) (o : Outcome)
    → is_transient o ≡ true
    → 30 ≤ k.duration_secs
    → Doubles cfg c (react cfg c k s o)
unfolding react
react-Doubles cfg c k s (ended reason) t h = absurd (ground (arith, t))
react-Doubles cfg c k s (failed (permanent msg)) t h = absurd (ground (arith, t))
react-Doubles cfg c k s (failed (transient msg)) t h =
    if-cases (Doubles cfg c) (is_unavailable msg) (λ u. absurd (ground (arith, t, u)))
      (λ _. sleep_after-Doubles cfg c k _ h)

abbrev pub IsTimeout : Connection → Type 0
IsTimeout k = (is_transient k.outcome ≡ true) × (30 ≤ k.duration_secs)

then_wait-Doubles :
    (cfg : TunnelConfig) (c : Client) (w n : ℕ) (rest : Client → List ℕ) (st : Step)
    → Doubles cfg c st
    → c.delay ≡ min w cfg.reconnect_max_delay_secs
    → ((next : Client)
        → next.delay ≡ min (w * 2) cfg.reconnect_max_delay_secs
        → rest next ≡ doubling (w * 2) cfg.reconnect_max_delay_secs n)
    → then_wait rest st ≡ doubling w cfg.reconnect_max_delay_secs (suc n)
then_wait-Doubles cfg c w n rest (stopped s) e h f = elim e [ ]
then_wait-Doubles cfg c w n rest (slept wait next) (e, d) h f =
    ap₂ (λ x xs. x ∷ xs) (e ∙ h) (f next (ground (arith, d, h)))

doubling_from :
    (cfg : TunnelConfig) (ks : List Connection) (c : Client) (w : ℕ)
    → c.delay ≡ min w cfg.reconnect_max_delay_secs
    → All IsTimeout ks
    → tunnel_client_loop cfg c ks ≡ doubling w cfg.reconnect_max_delay_secs (length ks)
unfolding tunnel_client_loop iteration
doubling_from cfg [] c w h a = refl
doubling_from cfg (k ∷ ks) c w h ((t, l), a) =
    then_wait-Doubles cfg c w (length ks) (λ next. tunnel_client_loop cfg next ks)
      (iteration cfg c k) (react-Doubles cfg c k (connecting c k) k.outcome t l) h
      (λ next e. doubling_from cfg ks next (w * 2) e a)

-- When each attempt ends with a transient error that is not about a missing address, after half a
-- minute or more, and the configured delay is within the maximum, the waits are that
-- delay, its double, its double again and so on, each cut at the maximum.
pub tunnel_client_loop-doubling :
    (cfg : TunnelConfig) (s : TunnelStats) (ks : List Connection)
    → cfg.reconnect_delay_secs ≤ cfg.reconnect_max_delay_secs
    → All IsTimeout ks
    → tunnel_client_loop cfg (start cfg s) ks
      ≡ doubling cfg.reconnect_delay_secs cfg.reconnect_max_delay_secs (length ks)
tunnel_client_loop-doubling cfg s ks h a =
    doubling_from cfg ks (start cfg s) cfg.reconnect_delay_secs (omega arith) a
