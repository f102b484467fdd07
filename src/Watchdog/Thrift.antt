-- ===== src/Watchdog/Thrift.antt =====
-- server/src/lte_watchdog.rs: a round and what it spends on actions.
use sctl.Prelude.{
  ℕ, ◌-◌, ◌/◌, ◌≡◌, Bool, inl, inr, true, false, none, List, [], ◌++◌, arith, ltb, if-cases,
}
use sctl.Watchdog.Cereg.{then_option, parse_cereg}
use sctl.Watchdog.State.{WatchdogState}
use sctl.Watchdog.Lte.{LteState}
use sctl.Watchdog.Gate.{LteConfig}
use sctl.Watchdog.Dispatch.{Effect, Watch, with_state}
use sctl.Watchdog.Round.{TickAnswers, Round, skip_tick, user_suppressed, or_now}
use sctl.Watchdog.Connected.{on_connected, settle}
use sctl.Watchdog.Treat.{treat}
use sctl.Watchdog.Reverts.{effective_grace, open_episode, prechange_revert, safe_revert}
use sctl.Watchdog.Tick.{after_safe, after_prechange, on_disconnected, tick, is_searching}
use sctl.Watchdog.Bounds.{Bounded}
use sctl.Watchdog.Keeping.{
  settle-Bounded, open_episode-Bounded, prechange_revert-Bounded, safe_revert-Bounded, InRound,
}
use sctl.Watchdog.Spending.{is_reregister, is_airplane_cycle, is_restart}
use sctl.Watchdog.Episodes.{
  count-append, Spent, Within, Covered, Covered-Within, Grown-Covered, Free, Accounted,
  Accounted-Free, Accounted-after,
}
use sctl.Watchdog.Charges.{treat-Accounted}
use sctl.Watchdog.Accounts.{
  Free_nothing, Calm, prechange_revert-Calm, safe_revert-Calm, settle-Settled,
}

-- Free effects of a step that ends the outage.
ended :
    (t : Spent) (es : List Effect) (s : WatchdogState)
    → Free es
    → Within t
    → s.tunnel_disconnect_since ≡ none
    → Accounted t es s
ended t es s f w e = record {
  within = record {
    registrations = omega (arith, f.registrations, w.registrations);
    cycles = omega (arith, f.cycles, w.cycles);
    restarts = omega (arith, f.restarts, w.restarts);
  };
  covered = inl e;
}

Free-append : (xs ys : List Effect) → Free xs → Free ys → Free (xs ++ ys)
Free-append xs ys f g = record {
  registrations = omega (arith, count-append is_reregister xs ys, f.registrations, g.registrations);
  cycles = omega (arith, count-append is_airplane_cycle xs ys, f.cycles, g.cycles);
  restarts = omega (arith, count-append is_restart xs ys, f.restarts, g.restarts);
}

-- What holds of a round.
abbrev pub Fair : Spent → Round → Type 0
Fair t r = Accounted t r.effects r.watch.state

module _ (cfg : LteConfig) (t : Spent) (secs : ℕ) (a : TickAnswers) where
  after_safe-Fair :
      (s : WatchdogState) (before : List Effect) (r : Bool × Round)
      → Free before
      → Bounded s
      → Covered t s
      → InRound r
      → Calm s r
      → Fair t (after_safe cfg secs a before r)
  unfolding after_safe
  after_safe-Fair s before (true, r) f b c v (g, e) =
      Accounted-after t before r.effects r.watch.state f
        (ended t r.effects r.watch.state g (Covered-Within t s c b) e)
  after_safe-Fair s before (false, r) f b c v (g, k) =
      let es = (treat cfg r.watch secs a).1 in
      Accounted-after t (before ++ r.effects) es _ (Free-append before r.effects f g)
        (treat-Accounted cfg r.watch secs a t v (Grown-Covered t s r.watch.state c k))

  after_prechange-Fair :
      (s : WatchdogState) (r : Bool × Round)
      → Bounded s
      → Covered t s
      → InRound r
      → Calm s r
      → Fair t (after_prechange cfg secs a r)
  unfolding after_prechange
  after_prechange-Fair s (true, r) b c v (g, e) =
      ended t r.effects r.watch.state g (Covered-Within t s c b) e
  after_prechange-Fair s (false, r) b c v (g, k) =
      after_safe-Fair r.watch.state r.effects (safe_revert r.watch r.lte a) g v
        (Grown-Covered t s r.watch.state c k) (safe_revert-Bounded r.watch r.lte a v)
        (safe_revert-Calm r.watch r.lte a)

on_disconnected-Fair :
    (cfg : LteConfig) (t : Spent) (w : Watch) (l : LteState) (a : TickAnswers)
    → Bounded w.state
    → Covered t w.state
    → Fair t (on_disconnected cfg w l a)
unfolding on_disconnected open_episode
on_disconnected-Fair cfg t w l a v c =
    let search = is_searching (then_option a.cereg parse_cereg) in
    let w' = with_state w (open_episode w.state a.now search) in
    let l' = record l { band_stable_since = none; bands_at_connect = none } in
    let v' : Bounded w'.state = open_episode-Bounded w.state a.now search v in
    let c' : Covered t w'.state = record {
      registrations = c.registrations;
      cycles = c.cycles;
      restarts = c.restarts;
    } in
    let lasted = a.now - or_now w.state.tunnel_disconnect_since a.now in
    if-cases (Fair t) (ltb lasted (effective_grace cfg search))
      (λ _. Accounted-Free t [] w'.state Free_nothing v' c')
      (λ _.
        after_prechange-Fair cfg t (lasted / 1000) a w'.state (prechange_revert w' l' a) v' c'
          (prechange_revert-Bounded w' l' a v') (prechange_revert-Calm w' l' a))

on_connected-Fair :
    (t : Spent) (w : Watch) (l : LteState) (a : TickAnswers)
    → Bounded w.state
    → Covered t w.state
    → Fair t (on_connected w l a)
unfolding on_connected
on_connected-Fair t w l a v c =
    let after = settle w.state a.now a.exhaustion_file in
    let (free, result) = settle-Settled w.state a.now a.exhaustion_file in
    elim result [
      | inl e ↦ ended t after.1 after.0 free (Covered-Within t w.state c v) e
      | inr g ↦
          Accounted-Free t after.1 after.0 free (settle-Bounded w.state a.now a.exhaustion_file v)
            (Grown-Covered t w.state after.0 c g)
    ]

pub tick-Fair :
    (cfg : LteConfig) (t : Spent) (w : Watch) (l : LteState) (a : TickAnswers)
    → Bounded w.state
    → Covered t w.state
    → Fair t (tick cfg w l a)
unfolding tick
tick-Fair cfg t w l a v c =
    let l' = (skip_tick l a.now a.epoch).1 in
    let idle = Accounted-Free t [] w.state Free_nothing v c in
    if-cases (Fair t) (skip_tick l a.now a.epoch).0 (λ _. idle)
      (λ _.
        if-cases (Fair t) (user_suppressed l' a.now) (λ _. idle)
          (λ _.
            if-cases (Fair t) a.connected (λ _. on_connected-Fair t w l' a v c)
              (λ _. on_disconnected-Fair cfg t w l' a v c)))
