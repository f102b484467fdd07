-- ===== src/Watchdog/Always.antt =====
-- server/src/lte_watchdog.rs: what every round of the watchdog keeps.
use sctl.Prelude.{if◌then◌else◌, ◌∷◌, [], List, ℕ, Bool, true, false, List, ltb, if-cases}
use sctl.Watchdog.Cereg.{then_option, parse_cereg}
use sctl.Watchdog.Lte.{LteState}
use sctl.Watchdog.Gate.{LteConfig}
use sctl.Watchdog.Dispatch.{Effect, Watch}
use sctl.Watchdog.Round.{TickAnswers, Round, is_some, skip_tick, user_suppressed}
use sctl.Watchdog.Connected.{on_connected}
use sctl.Watchdog.Reverts.{effective_grace}
use sctl.Watchdog.Tick.{after_safe, after_prechange, on_disconnected, tick, is_searching}
use sctl.Watchdog.Episodes.{Spent, nothing, add, Within}
use sctl.Watchdog.Bounds.{Bounded}
use sctl.Watchdog.Keeping.{
  settle-Bounded, open_episode-Bounded, prechange_revert-Bounded, safe_revert-Bounded,
  treat-Bounded, InRound,
}

after_safe-Bounded :
    (cfg : LteConfig) (secs : ℕ) (a : TickAnswers) (before : List Effect) (r : Bool × Round)
    → InRound r
    → Bounded (after_safe cfg secs a before r).watch.state
unfolding after_safe
after_safe-Bounded cfg secs a before (true, r) v = v
after_safe-Bounded cfg secs a before (false, r) v = treat-Bounded cfg r.watch secs a v

after_prechange-Bounded :
    (cfg : LteConfig) (secs : ℕ) (a : TickAnswers) (r : Bool × Round)
    → InRound r
    → Bounded (after_prechange cfg secs a r).watch.state
unfolding after_prechange
after_prechange-Bounded cfg secs a (true, r) v = v
after_prechange-Bounded cfg secs a (false, r) v =
    after_safe-Bounded cfg secs a r.effects _ (safe_revert-Bounded r.watch r.lte a v)

abbrev Kept : Round → Type 0
Kept r = Bounded r.watch.state

on_disconnected-Bounded :
    (cfg : LteConfig) (w : Watch) (l : LteState) (a : TickAnswers)
    → Bounded w.state
    → Kept (on_disconnected cfg w l a)
unfolding on_disconnected
on_disconnected-Bounded cfg w l a v =
    let v' =
      open_episode-Bounded w.state a.now (is_searching (then_option a.cereg parse_cereg)) v in
    if-cases Kept (ltb _ (effective_grace cfg (is_searching (then_option a.cereg parse_cereg))))
      (λ _. v') (λ _. after_prechange-Bounded cfg _ a _ (prechange_revert-Bounded _ _ a v'))

-- A round keeps the caps on the actions of an episode, and that three USB cycles without success
-- leave the watchdog dormant, whatever the modem answers and whatever the state of the modem that
-- it shares with the rest of the server.
pub tick-Bounded :
    (cfg : LteConfig) (w : Watch) (l : LteState) (a : TickAnswers)
    → Bounded w.state
    → Kept (tick cfg w l a)
unfolding tick on_connected
tick-Bounded cfg w l a v =
    if-cases Kept (skip_tick l a.now a.epoch).0 (λ _. v)
      (λ _.
        if-cases Kept (user_suppressed (skip_tick l a.now a.epoch).1 a.now) (λ _. v)
          (λ _.
            if-cases Kept a.connected (λ _. settle-Bounded w.state a.now a.exhaustion_file v)
              (λ _. on_disconnected-Bounded cfg w (skip_tick l a.now a.epoch).1 a v)))

-- Each round stays within the limits of an episode, which ends when the outage does.
abbrev pub Thrifty : LteConfig → Watch → Spent → List (LteState × TickAnswers) → Type 0
Thrifty cfg w t [] = Unit {0}
Thrifty cfg w t ((l, a) ∷ rounds) =
    let r = tick cfg w l a in
    let spent = add t r.effects in
    Within spent
    × Thrifty cfg r.watch (if is_some r.watch.state.tunnel_disconnect_since then spent else nothing)
        rounds
