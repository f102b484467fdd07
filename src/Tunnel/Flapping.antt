-- ===== src/Tunnel/Flapping.antt =====
-- server/src/tunnel/client.rs: the waits after short connections.
use sctl.Prelude.{
  ℕ, suc, ◌<◌, ◌≡◌, refl, ap, ap₂, ◌∙◌, sym, subst, Bool, true, false, List, [], ◌∷◌, ◌++◌,
  append_assoc, arith, if-cases, leb, if◌then◌else◌, length, length-append, take, drop, replicate,
  All,
}
use sctl.Prelude.Ring.{push_bounded}
use sctl.Tunnel.Events.{TunnelStats}
use sctl.Tunnel.Reconnect.{
  TunnelConfig, Connection, Client, Step, stopped, slept, Outcome, ended, failed, permanent,
  transient, relay_shutdown, ws_close, pong_timeout, writer_exit, read_error, is_unavailable,
  is_flapping, all_short, sleep_after, react, iteration, connecting, then_wait, tunnel_client_loop,
  flap_window,
}
use sctl.Tunnel.Backoff.{is_permanent}
use mathlib.Core.List.{reverse, reverse-append}

-- The list ends with `t`.
abbrev Ending : List ℕ → List ℕ → Type 0
Ending t ds = (ys : List ℕ) × (ds ≡ ys ++ t)

push_bounded-Ending :
    (z t : List ℕ) (d : ℕ)
    → length t < flap_window
    → Ending (t ++ (d ∷ [])) (push_bounded flap_window (z ++ t) d)
push_bounded-Ending [] t d h =
    if-cases (λ q. Ending (t ++ (d ∷ [])) (q ++ (d ∷ []))) (leb flap_window (length t))
      (λ e. absurd (ground (arith, e, h))) (λ _. ([], refl))
push_bounded-Ending (x ∷ z) t d h =
    if-cases (λ q. Ending (t ++ (d ∷ [])) (q ++ (d ∷ []))) (leb flap_window (length (x ∷ z ++ t)))
      (λ _. (z, append_assoc z t (d ∷ []))) (λ _. (x ∷ z, append_assoc (x ∷ z) t (d ∷ [])))

is_flapping-short :
    (ys : List ℕ) (a b d : ℕ)
    → a < 30
    → b < 30
    → d < 30
    → is_flapping (ys ++ (a ∷ b ∷ d ∷ [])) ≡ true
unfolding is_flapping
is_flapping-short ys a b d h i j =
    let e : all_short (take 3 (reverse (ys ++ (a ∷ b ∷ d ∷ [])))) ≡ true =
      ap (λ xs. all_short (take 3 xs)) (reverse-append ys (a ∷ b ∷ d ∷ []))
      ∙ ground (arith, h, i, j) in
    ground (arith, e, length-append ys (a ∷ b ∷ d ∷ []))

-- A step that sleeps for a minute and leaves the last two durations as those before it.
abbrev Pauses : ℕ → ℕ → Step → Type 0
Pauses a b (stopped s) = ⊥
Pauses a b (slept wait next) = (wait ≡ 60) × Ending (a ∷ b ∷ []) next.connection_durations

-- A step that sleeps, with the durations that follow.
abbrev Sleeps : Client → ℕ → Step → Type 0
Sleeps c d (stopped s) = ⊥
Sleeps c d (slept wait next) =
    next.connection_durations ≡ push_bounded flap_window c.connection_durations d

-- Every outcome but a permanent error sleeps, for some wait.
react-sleeps :
    (P : Step → Type 0) (cfg : TunnelConfig) (c : Client) (k : Connection) (s : TunnelStats)
    (o : Outcome)
    → is_permanent o ≡ false
    → ((s' : TunnelStats) (w : ℕ) (e : Bool) → P (sleep_after cfg c k s' w e))
    → P (react cfg c k s o)
unfolding react
react-sleeps P cfg c k s (ended relay_shutdown) n f = f _ 0 false
react-sleeps P cfg c k s (ended ws_close) n f = f _ 0 false
react-sleeps P cfg c k s (ended pong_timeout) n f = f _ 0 false
react-sleeps P cfg c k s (ended writer_exit) n f = f _ 0 false
react-sleeps P cfg c k s (ended read_error) n f = f _ 0 false
react-sleeps P cfg c k s (failed (permanent msg)) n f = absurd (ground (arith, n))
react-sleeps P cfg c k s (failed (transient msg)) n f =
    if-cases P (is_unavailable msg) (λ _. f _ 5 false) (λ _. f _ c.delay true)

sleep_after-Pauses :
    (cfg : TunnelConfig) (c : Client) (k : Connection) (s : TunnelStats) (w : ℕ) (e : Bool)
    (a b : ℕ)
    → Ending (a ∷ b ∷ []) c.connection_durations
    → a < 30
    → b < 30
    → k.duration_secs < 30
    → Pauses b k.duration_secs (sleep_after cfg c k s w e)
unfolding sleep_after
sleep_after-Pauses cfg c k s w e a b (z, p) h i j =
    let d : ℕ = k.duration_secs in
    let after : Ending (a ∷ b ∷ d ∷ []) (push_bounded flap_window c.connection_durations d) =
      subst (λ q. Ending (a ∷ b ∷ d ∷ []) (push_bounded flap_window q d)) (sym p)
        (push_bounded-Ending z (a ∷ b ∷ []) d (omega arith)) in
    let flap : is_flapping (push_bounded flap_window c.connection_durations d) ≡ true =
      ap is_flapping after.1 ∙ is_flapping-short after.0 a b d h i j in
    (
      ap (λ t. if t then 60 else w) flap,
      (after.0 ++ (a ∷ []), after.1 ∙ sym (append_assoc after.0 (a ∷ []) (b ∷ d ∷ []))),
    )

abbrev pub IsFlap : Connection → Type 0
IsFlap k = (is_permanent k.outcome ≡ false) × (k.duration_secs < 30)

then_wait-Pauses :
    (a b n : ℕ) (rest : Client → List ℕ) (st : Step)
    → Pauses a b st
    → ((next : Client) → Ending (a ∷ b ∷ []) next.connection_durations → rest next ≡ replicate n 60)
    → then_wait rest st ≡ replicate (suc n) 60
then_wait-Pauses a b n rest (stopped s) e f = elim e [ ]
then_wait-Pauses a b n rest (slept wait next) (e, d) f = ap₂ (λ x xs. x ∷ xs) e (f next d)

pauses_from :
    (cfg : TunnelConfig) (ks : List Connection) (c : Client) (a b : ℕ)
    → Ending (a ∷ b ∷ []) c.connection_durations
    → a < 30
    → b < 30
    → All IsFlap ks
    → tunnel_client_loop cfg c ks ≡ replicate (length ks) 60
unfolding tunnel_client_loop iteration
pauses_from cfg [] c a b p h i u = refl
pauses_from cfg (k ∷ ks) c a b p h i ((n, j), u) =
    then_wait-Pauses b k.duration_secs (length ks) (λ next. tunnel_client_loop cfg next ks)
      (iteration cfg c k)
      (react-sleeps (Pauses b k.duration_secs) cfg c k (connecting c k) k.outcome n
        (λ s w e. sleep_after-Pauses cfg c k s w e a b p h i j))
      (λ next q. pauses_from cfg ks next b k.duration_secs q i j u)

-- What a step sleeps is the first wait, and the others are those of the client that it leaves.
then_wait-drop :
    (c : Client) (d n : ℕ) (rest : Client → List ℕ) (st : Step) (xs : List ℕ)
    → Sleeps c d st
    → ((next : Client)
        → next.connection_durations ≡ push_bounded flap_window c.connection_durations d
        → drop n (rest next) ≡ xs)
    → drop (suc n) (then_wait rest st) ≡ xs
then_wait-drop c d n rest (stopped s) xs e f = elim e [ ]
then_wait-drop c d n rest (slept wait next) xs e f = f next e

iteration-Sleeps :
    (cfg : TunnelConfig) (c : Client) (k : Connection)
    → is_permanent k.outcome ≡ false
    → Sleeps c k.duration_secs (iteration cfg c k)
unfolding iteration sleep_after
iteration-Sleeps cfg c k n =
    react-sleeps (Sleeps c k.duration_secs) cfg c k (connecting c k) k.outcome n (λ s w e. refl)

-- After two connections that lasted less than half a minute, each further one that does not last
-- longer is followed by a wait of 60 seconds, whatever it ended with but a permanent error and
-- whatever the configuration: also when the relay shut down, when the interface of the bind address
-- is down, and when the configured maximum is less.
pub tunnel_client_loop-flapping :
    (cfg : TunnelConfig) (c : Client) (first second : Connection) (ks : List Connection)
    → All IsFlap (first ∷ second ∷ ks)
    → drop 2 (tunnel_client_loop cfg c (first ∷ second ∷ ks)) ≡ replicate (length ks) 60
unfolding tunnel_client_loop
tunnel_client_loop-flapping cfg c first second ks ((m, h), ((n, i), u)) =
    let a : ℕ = first.duration_secs in
    let b : ℕ = second.duration_secs in
    then_wait-drop c a 1 (λ next. tunnel_client_loop cfg next (second ∷ ks)) (iteration cfg c first)
      (replicate (length ks) 60) (iteration-Sleeps cfg c first m)
      (λ c₁ e.
        then_wait-drop c₁ b 0 (λ next. tunnel_client_loop cfg next ks) (iteration cfg c₁ second)
          (replicate (length ks) 60) (iteration-Sleeps cfg c₁ second n)
          (λ c₂ e'.
            let p : Ending (a ∷ b ∷ []) c₂.connection_durations =
              subst (Ending (a ∷ b ∷ [])) (sym (e' ∙ ap (λ q. push_bounded flap_window q b) e))
                (push_bounded-Ending _ (a ∷ []) b (omega arith)) in
            pauses_from cfg ks c₂ a b p h i u))
