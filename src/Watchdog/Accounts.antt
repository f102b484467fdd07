-- ===== src/Watchdog/Accounts.antt =====
-- server/src/lte_watchdog.rs: the steps of a round and what they spend.
use sctl.Prelude.{
  ℕ, ◌-◌, ◌≡◌, refl, Bool, ◌||◌, ◌⊎◌, inl, inr, true, false, not, List, [], Option, none, some,
  String, arith, leb, if-cases,
}
use sctl.Watchdog.State.{WatchdogState, light_reset, heavy_reset, record_action}
use sctl.Watchdog.Lte.{LteState, SafeBandConfig}
use sctl.Watchdog.Dispatch.{Effect, Watch, notes}
use sctl.Watchdog.Round.{
  TickAnswers, Round, RevertAnswers, safe_promote_threshold, light_reset_threshold, is_some, or_now,
}
use sctl.Watchdog.Connected.{settle}
use sctl.Watchdog.Reverts.{
  after_revert, prechange_revert, differs, safe_revert, restore, restore_safe,
}
use sctl.Watchdog.Spending.{Grown, still}
use sctl.Watchdog.Episodes.{Free}

abbrev pub Free_nothing : Free []
Free_nothing = record { registrations = refl; cycles = refl; restarts = refl }

-- A revert that brings the tunnel back ends the outage, and another one leaves the counters.
abbrev pub Calm : WatchdogState → Bool × Round → Type 0
Calm s (true, r) = Free r.effects × (r.watch.state.tunnel_disconnect_since ≡ none)
Calm s (false, r) = Free r.effects × Grown s r.watch.state 0 0 0

after_revert-Calm :
    (s : WatchdogState) (w : Watch) (l : LteState) (name : String) (bands : List ℕ)
    (priority : Option ℕ) (r : RevertAnswers) (epoch : ℕ)
    → Grown s w.state 0 0 0
    → Calm s (after_revert w l name bands priority r epoch)
unfolding after_revert light_reset notes record_action
after_revert-Calm s w l name bands priority r epoch g =
    if-cases (Calm s) (not r.applied)
      (λ _. (record { registrations = refl; cycles = refl; restarts = refl }, g))
      (λ _.
        if-cases (Calm s) r.recovered
          (λ _. (record { registrations = refl; cycles = refl; restarts = refl }, refl))
          (λ _. (
            record { registrations = refl; cycles = refl; restarts = refl },
            record { registered = g.registered; cycled = g.cycled; restarted = g.restarted },
          )))

same_counters : (s : WatchdogState) (b : Bool) → Grown s (record s { tried_safe_revert = b }) 0 0 0
same_counters s b = record {
  registered = omega arith;
  cycled = omega arith;
  restarted = omega arith;
}

restore-Calm :
    (w : Watch) (l : LteState) (a : TickAnswers) (o : Option (List ℕ × Option ℕ))
    → Calm w.state (restore w l a o)
unfolding restore
restore-Calm w l a none = (Free_nothing, still w.state)
restore-Calm w l a (some (bands, priority)) =
    after_revert-Calm w.state _ l _ bands priority a.prechange a.epoch
      (record { registered = omega arith; cycled = omega arith; restarted = omega arith })

pub prechange_revert-Calm :
    (w : Watch) (l : LteState) (a : TickAnswers) → Calm w.state (prechange_revert w l a)
unfolding prechange_revert
prechange_revert-Calm w l a =
    if-cases (Calm w.state) w.state.tried_prechange_revert (λ _. (Free_nothing, still w.state))
      (λ _. restore-Calm w l a _)

restore_safe-Calm :
    (w : Watch) (l : LteState) (a : TickAnswers) (o : Option SafeBandConfig)
    → Calm w.state (restore_safe w l a o)
unfolding restore_safe
restore_safe-Calm w l a none = (Free_nothing, still w.state)
restore_safe-Calm w l a (some sb) =
    if-cases (Calm w.state) (differs a.current_bands sb.bands)
      (λ _.
        after_revert-Calm w.state _ l _ sb.bands sb.priority_band a.safe a.epoch
          (same_counters w.state true))
      (λ _. (Free_nothing, still w.state))

pub safe_revert-Calm :
    (w : Watch) (l : LteState) (a : TickAnswers) → Calm w.state (safe_revert w l a)
unfolding safe_revert
safe_revert-Calm w l a =
    if-cases (Calm w.state) w.state.tried_safe_revert (λ _. (Free_nothing, still w.state))
      (λ _. restore_safe-Calm w l a _)

-- The resets of a connected tunnel.
pub settle-Settled :
    (s : WatchdogState) (now : ℕ) (file : Bool)
    → Free (settle s now file).1
      × (((settle s now file).0.tunnel_disconnect_since ≡ none)
          ⊎ Grown s (settle s now file).0 0 0 0)
unfolding settle light_reset heavy_reset
settle-Settled s now file =
    let lasted = now - or_now s.tunnel_connected_since now in
    let Settled : WatchdogState × List Effect → Type 0 =
      λ r. Free r.1 × ((r.0.tunnel_disconnect_since ≡ none) ⊎ Grown s r.0 0 0 0) in
    let same : Grown s
        (record s { tunnel_connected_since = some (or_now s.tunnel_connected_since now) }) 0 0 0 =
      record { registered = omega arith; cycled = omega arith; restarted = omega arith } in
    if-cases Settled (not (is_some s.tunnel_disconnect_since)) (λ _. (Free_nothing, inr same))
      (λ _.
        if-cases Settled (leb safe_promote_threshold lasted)
          (λ _. (
            if-cases Free (s.dormant || file)
                (λ _. record { registrations = refl; cycles = refl; restarts = refl })
                (λ _. Free_nothing),
            inl refl,
          ))
          (λ _.
            if-cases Settled (leb light_reset_threshold lasted) (λ _. (Free_nothing, inl refl))
              (λ _. (Free_nothing, inr same))))
