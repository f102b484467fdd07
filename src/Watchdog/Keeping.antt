-- ===== src/Watchdog/Keeping.antt =====
-- server/src/lte_watchdog.rs: the steps of a round keep the caps on the actions of an episode.
use sctl.Prelude.{
  List, ℕ, ◌-◌, ◌≤◌, ◌≡◌, refl, Bool, true, false, not, List, Option, none, some, String, arith,
  leb, add_u32, if-cases,
}
use sctl.Watchdog.State.{Symptom, WatchdogState, record_action}
use sctl.Watchdog.Lte.{LteState, SafeBandConfig}
use sctl.Watchdog.Gate.{LteConfig, diagnose}
use sctl.Watchdog.Dispatch.{Effect, Watch, Dispatched, waits, acts, with_state}
use sctl.Watchdog.Round.{
  TickAnswers, Round, RevertAnswers, max_l3_attempts, safe_promote_threshold, light_reset_threshold,
  is_some, or_now,
}
use sctl.Watchdog.Connected.{settle}
use sctl.Watchdog.Reverts.{
  open_episode, after_revert, prechange_revert, differs, safe_revert, restore, restore_safe,
}
use sctl.Watchdog.Treat.{is_unresponsive, count_l3, logged, after_action, finish, treat}
use sctl.Watchdog.Bounds.{
  Bounded, light_reset-Bounded, heavy_reset-Bounded, notes-Bounded, OnState, dispatch-Bounded,
}

record_action-Bounded :
    (s : WatchdogState) (action : String) (now : ℕ)
    → Bounded s
    → Bounded (record_action s action now)
unfolding record_action
record_action-Bounded s action now v = record {
  reregisters = v.reregisters;
  restarts = v.restarts;
  cycles = v.cycles;
  rests = v.rests;
}

pub settle-Bounded :
    (s : WatchdogState) (now : ℕ) (file : Bool) → Bounded s → Bounded (settle s now file).0
unfolding settle
settle-Bounded s now file v =
    let lasted = now - or_now s.tunnel_connected_since now in
    let P = λ (r : WatchdogState × List Effect). Bounded r.0 in
    let s' = record s { tunnel_connected_since = some (or_now s.tunnel_connected_since now) } in
    let v' : Bounded s' = record {
      reregisters = v.reregisters;
      restarts = v.restarts;
      cycles = v.cycles;
      rests = v.rests;
    } in
    if-cases P (not (is_some s.tunnel_disconnect_since)) (λ _. v')
      (λ _.
        if-cases P (leb safe_promote_threshold lasted) (λ _. heavy_reset-Bounded s')
          (λ _.
            if-cases P (leb light_reset_threshold lasted) (λ _. light_reset-Bounded s' v')
              (λ _. v')))

pub open_episode-Bounded :
    (s : WatchdogState) (now : ℕ) (search : Bool) → Bounded s → Bounded (open_episode s now search)
unfolding open_episode
open_episode-Bounded s now search v = record {
  reregisters = v.reregisters;
  restarts = v.restarts;
  cycles = v.cycles;
  rests = v.rests;
}

abbrev pub InRound : Bool × Round → Type 0
InRound r = Bounded r.1.watch.state

after_revert-Bounded :
    (w : Watch) (l : LteState) (name : String) (bands : List ℕ) (priority : Option ℕ)
    (r : RevertAnswers) (epoch : ℕ)
    → Bounded w.state
    → InRound (after_revert w l name bands priority r epoch)
unfolding after_revert
after_revert-Bounded w l name bands priority r epoch v =
    let noted =
      notes-Bounded (with_state w (record_action w.state name r.now)) name name epoch
        (record_action-Bounded w.state name r.now v) in
    if-cases InRound (not r.applied) (λ _. v)
      (λ _. if-cases InRound r.recovered (λ _. light_reset-Bounded _ noted) (λ _. noted))

restore-Bounded :
    (w : Watch) (l : LteState) (a : TickAnswers) (o : Option (List ℕ × Option ℕ))
    → Bounded w.state
    → InRound (restore w l a o)
unfolding restore
restore-Bounded w l a none v = v
restore-Bounded w l a (some (bands, priority)) v =
    after_revert-Bounded (with_state w (record (w.state) { tried_prechange_revert = true })) l
      "prechange_revert" bands priority a.prechange a.epoch
      (record {
        reregisters = v.reregisters;
        restarts = v.restarts;
        cycles = v.cycles;
        rests = v.rests;
      })

pub prechange_revert-Bounded :
    (w : Watch) (l : LteState) (a : TickAnswers)
    → Bounded w.state
    → InRound (prechange_revert w l a)
unfolding prechange_revert
prechange_revert-Bounded w l a v =
    if-cases InRound w.state.tried_prechange_revert (λ _. v) (λ _. restore-Bounded w l a _ v)

restore_safe-Bounded :
    (w : Watch) (l : LteState) (a : TickAnswers) (o : Option SafeBandConfig)
    → Bounded w.state
    → InRound (restore_safe w l a o)
unfolding restore_safe
restore_safe-Bounded w l a none v = v
restore_safe-Bounded w l a (some sb) v =
    if-cases InRound (differs a.current_bands sb.bands)
      (λ _.
        after_revert-Bounded (with_state w (record (w.state) { tried_safe_revert = true })) l
          "safe_revert" sb.bands sb.priority_band a.safe a.epoch
          (record {
            reregisters = v.reregisters;
            restarts = v.restarts;
            cycles = v.cycles;
            rests = v.rests;
          }))
      (λ _. v)

pub safe_revert-Bounded :
    (w : Watch) (l : LteState) (a : TickAnswers) → Bounded w.state → InRound (safe_revert w l a)
unfolding safe_revert
safe_revert-Bounded w l a v =
    if-cases InRound w.state.tried_safe_revert (λ _. v) (λ _. restore_safe-Bounded w l a _ v)

count_l3-Bounded : (s : WatchdogState) (level : ℕ) → Bounded s → Bounded (count_l3 s level).0
unfolding count_l3
count_l3-Bounded s level v =
    let P = λ (r : WatchdogState × List Effect). Bounded r.0 in
    let n = add_u32 s.l3_attempts 1 in
    if-cases P (leb 3 level)
      (λ _.
        if-cases P (leb max_l3_attempts n)
          (λ _. record {
            reregisters = v.reregisters;
            restarts = v.restarts;
            cycles = v.cycles;
            rests = λ _. refl;
          })
          (λ e. record {
            reregisters = v.reregisters;
            restarts = v.restarts;
            cycles = v.cycles;
            rests = λ h. absurd (below n h e);
          }))
      (λ _. v)
  where
    below : (n : ℕ) → 3 ≤ n → leb max_l3_attempts n ≡ false → ⊥
    below n h e = ground (arith, h, e)

logged-Bounded :
    (w : Watch) (symptom : Symptom) (action : String) (a : TickAnswers)
    → Bounded w.state
    → Bounded (logged w symptom action a).state
logged-Bounded w symptom action a v =
    notes-Bounded (with_state w (record_action _ action a.acted_at)) _ action a.epoch (
      record_action-Bounded _ action a.acted_at (
        if-cases Bounded (is_unresponsive symptom) (λ _. v)
          (λ _. record {
            reregisters = v.reregisters;
            restarts = v.restarts;
            cycles = v.cycles;
            rests = v.rests;
          })))

-- What holds of the state that a treatment leaves.
abbrev Treated : Watch × List Effect → Type 0
Treated r = Bounded r.0.state

after_action-Bounded :
    (w : Watch) (symptom : Symptom) (action : String) (level : ℕ) (effect : Effect)
    (a : TickAnswers)
    → Bounded w.state
    → Treated (after_action w symptom action level effect a)
unfolding after_action
after_action-Bounded w symptom action level effect a v =
    let v' = logged-Bounded w symptom action a v in
    if-cases Treated a.recovered (λ _. light_reset-Bounded _ v') (λ _. count_l3-Bounded _ level v')

finish-Bounded :
    (d : Dispatched) (symptom : Symptom) (a : TickAnswers)
    → OnState Bounded d
    → Treated (finish d symptom a)
finish-Bounded (waits w) symptom a v = v
finish-Bounded (acts action level w effect) symptom a v =
    after_action-Bounded w symptom action level effect a v

pub treat-Bounded :
    (cfg : LteConfig) (w : Watch) (secs : ℕ) (a : TickAnswers)
    → Bounded w.state
    → Treated (treat cfg w secs a)
unfolding treat
treat-Bounded cfg w secs a v = finish-Bounded _ (diagnose a.observed w.state a.action.now).0 a (
    dispatch-Bounded cfg secs a.action (diagnose a.observed w.state a.action.now).0 _ (record {
      reregisters = v.reregisters;
      restarts = v.restarts;
      cycles = v.cycles;
      rests = v.rests;
    }))
