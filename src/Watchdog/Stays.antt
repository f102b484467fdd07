-- ===== src/Watchdog/Stays.antt =====
-- server/src/lte_watchdog.rs: what a connection that lasts leaves of a dormant watchdog.
use sctl.Prelude.{
  ap, ℕ, ◌-◌, ◌≤◌, ◌<◌, ◌≡◌, refl, ◌∙◌, Bool, true, false, not, List, [], ◌∷◌, Option, none, some,
  arith, leb, All, if-cases,
}
use sctl.Watchdog.State.{WatchdogState, light_reset}
use sctl.Watchdog.Lte.{LteState}
use sctl.Watchdog.Gate.{LteConfig}
use sctl.Watchdog.Dispatch.{Effect, Watch}
use sctl.Watchdog.Round.{
  TickAnswers, Round, skip_tick, user_suppressed, safe_promote_threshold, light_reset_threshold,
  is_some, or_now,
}
use sctl.Watchdog.Connected.{settle, on_connected}
use sctl.Watchdog.Tick.{tick, run}

-- The attempts of level 3 and the dormant state are as before, and no episode is open.
record Stays (s s' : WatchdogState) : Type 0 where
  pub dormant : s'.dormant ≡ s.dormant
  pub attempts : s'.l3_attempts ≡ s.l3_attempts
  pub closed : s'.tunnel_disconnect_since ≡ none

Stays-trans : {s t u : WatchdogState} → Stays s t → Stays t u → Stays s u
Stays-trans p q = record {
  dormant = q.dormant ∙ p.dormant;
  attempts = q.attempts ∙ p.attempts;
  closed = q.closed;
}

is_some-none : (o : Option ℕ) → not (is_some o) ≡ true → o ≡ none
is_some-none none h = refl
is_some-none (some t) h = cc

-- The light reset, after 90 seconds, closes the episode.
settle-light :
    (s : WatchdogState) (t now : ℕ) (file : Bool)
    → s.tunnel_connected_since ≡ some t
    → 90000 ≤ now - t
    → now - t < 300000
    → Stays s (settle s now file).0
unfolding settle light_reset
settle-light s t now file h from to =
    let lasted = now - or_now s.tunnel_connected_since now in
    let at : or_now s.tunnel_connected_since now ≡ t = ap (λ o. or_now o now) h in
    let P = λ (r : WatchdogState × List Effect). Stays s r.0 in
    if-cases P (not (is_some s.tunnel_disconnect_since))
      (λ e. record {
        dormant = refl;
        attempts = refl;
        closed = is_some-none s.tunnel_disconnect_since e;
      })
      (λ _.
        if-cases P (leb safe_promote_threshold lasted) (λ e. absurd (early t at e))
          (λ _.
            if-cases P (leb light_reset_threshold lasted)
              (λ _. record { dormant = refl; attempts = refl; closed = refl })
              (λ e. absurd (late t at e))))
  where
    early :
        (t' : ℕ)
        → or_now s.tunnel_connected_since now ≡ t
        → leb safe_promote_threshold (now - or_now s.tunnel_connected_since now) ≡ true
        → ⊥
    early t' at e = ground (arith, at, e, to)

    late :
        (t' : ℕ)
        → or_now s.tunnel_connected_since now ≡ t
        → leb light_reset_threshold (now - or_now s.tunnel_connected_since now) ≡ false
        → ⊥
    late t' at e = ground (arith, at, e, from)

settle-closed :
    (s : WatchdogState) (now : ℕ) (file : Bool)
    → s.tunnel_disconnect_since ≡ none
    → Stays s (settle s now file).0
unfolding settle
settle-closed s now file h =
    let lasted = now - or_now s.tunnel_connected_since now in
    if-cases (λ (r : WatchdogState × List Effect). Stays s r.0)
      (not (is_some s.tunnel_disconnect_since))
      (λ _. record { dormant = refl; attempts = refl; closed = h })
      (λ e. absurd (open_ s.tunnel_disconnect_since h e))
  where
    open_ : (o : Option ℕ) → o ≡ none → not (is_some o) ≡ false → ⊥
    open_ none h e = cc
    open_ (some t) h e = cc

tick-closed :
    (cfg : LteConfig) (w : Watch) (l : LteState) (a : TickAnswers)
    → a.connected ≡ true
    → w.state.tunnel_disconnect_since ≡ none
    → Stays w.state (tick cfg w l a).watch.state
unfolding tick on_connected
tick-closed cfg w l a c h =
    let P = λ (r : Round). Stays w.state r.watch.state in
    let same : Stays w.state w.state = record { dormant = refl; attempts = refl; closed = h } in
    if-cases P (skip_tick l a.now a.epoch).0 (λ _. same)
      (λ _.
        if-cases P (user_suppressed (skip_tick l a.now a.epoch).1 a.now) (λ _. same)
          (λ _.
            if-cases P a.connected (λ _. settle-closed w.state a.now a.exhaustion_file h)
              (λ e. absurd (cc (c, e)))))

run-closed :
    (cfg : LteConfig) (w : Watch) (rounds : List (LteState × TickAnswers))
    → All (λ x. x.1.connected ≡ true) rounds
    → w.state.tunnel_disconnect_since ≡ none
    → Stays w.state (run cfg w rounds).state
unfolding run
run-closed cfg w [] c h = record { dormant = refl; attempts = refl; closed = h }
run-closed cfg w ((l, a) ∷ rounds) (c, cs) h =
    let one = tick-closed cfg w l a c h in
    Stays-trans one (run-closed cfg (tick cfg w l a).watch rounds cs one.closed)

-- Once a round that is not skipped finds the tunnel up for at least 90 seconds and less than five
-- minutes, no later round of that connection ends the dormant state or resets the attempts of
-- level 3, however long the connection lasts.
pub run-dormant :
    (cfg : LteConfig) (w : Watch) (l : LteState) (a : TickAnswers) (t : ℕ)
    (rounds : List (LteState × TickAnswers))
    → (skip_tick l a.now a.epoch).0 ≡ false
    → user_suppressed (skip_tick l a.now a.epoch).1 a.now ≡ false
    → a.connected ≡ true
    → w.state.tunnel_connected_since ≡ some t
    → 90000 ≤ a.now - t
    → a.now - t < 300000
    → All (λ x. x.1.connected ≡ true) rounds
    → ((run cfg w ((l, a) ∷ rounds)).state.dormant ≡ w.state.dormant)
      × ((run cfg w ((l, a) ∷ rounds)).state.l3_attempts ≡ w.state.l3_attempts)
unfolding run tick on_connected
run-dormant cfg w l a t rounds skip user c since from to cs =
    let rest = Stays-trans first (run-closed cfg (tick cfg w l a).watch rounds cs first.closed) in
    (rest.dormant, rest.attempts)
  where
    first : Stays w.state (tick cfg w l a).watch.state
    first =
        let P = λ (r : Round). Stays w.state r.watch.state in
        if-cases P (skip_tick l a.now a.epoch).0 (λ e. absurd (cc (e, skip)))
          (λ _.
            if-cases P (user_suppressed (skip_tick l a.now a.epoch).1 a.now)
              (λ e. absurd (cc (e, user)))
              (λ _.
                if-cases P a.connected
                  (λ _. settle-light w.state t a.now a.exhaustion_file since from to)
                  (λ e. absurd (cc (e, c)))))
