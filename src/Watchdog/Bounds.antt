-- ===== src/Watchdog/Bounds.antt =====
-- server/src/lte_watchdog.rs: the caps on the actions of an episode.
use sctl.Prelude.{
  ℕ, ◌≤◌, ◌<◌, ◌≡◌, refl, Bool, ◌&&◌, true, false, String, arith, leb, ltb, not, if-cases,
}
use sctl.Watchdog.State.{
  Symptom, searching, registered_no_data, not_registered, unresponsive, relay_problem,
  tunnel_reconnecting, internet_unreachable, modem_gone, unknown, WatchdogState, light_reset,
  heavy_reset, cooldown_elapsed, new,
}
use sctl.Watchdog.Gate.{LteConfig}
use sctl.Watchdog.Dispatch.{
  Watch, ActionAnswers, Dispatched, waits, acts, count_at, action_airplane_cycle, go_dormant, notes,
  last_resort, cycle_radio, restart, register_again, on_searching, on_no_data, on_not_registered,
  on_unresponsive, on_unknown, dispatch, usb_allowed, with_state, at_failure_skip_threshold,
  max_iface_restarts, max_airplane_cycles,
}

-- The caps of an episode, and that the watchdog is dormant after three USB cycles without success.
pub record Bounded (s : WatchdogState) : Type 0 where
  pub reregisters : s.reregisters ≤ 1
  pub restarts : s.iface_restarts ≤ 2
  pub cycles : s.airplane_cycles ≤ 2
  pub rests : 3 ≤ s.l3_attempts → s.dormant ≡ true

pub light_reset-Bounded : (s : WatchdogState) → Bounded s → Bounded (light_reset s)
unfolding light_reset
light_reset-Bounded s v = record {
  reregisters = omega arith;
  restarts = omega arith;
  cycles = omega arith;
  rests = v.rests;
}

pub heavy_reset-Bounded : (s : WatchdogState) → Bounded (heavy_reset s)
unfolding heavy_reset light_reset
heavy_reset-Bounded s = record {
  reregisters = omega arith;
  restarts = omega arith;
  cycles = omega arith;
  rests = λ h. absurd (omega (arith, h));
}

pub new-Bounded : Bounded new
unfolding new
new-Bounded = record {
  reregisters = omega arith;
  restarts = omega arith;
  cycles = omega arith;
  rests = λ h. absurd (omega (arith, h));
}

-- What holds of the watchdog after the dispatch.
abbrev pub OnState : (WatchdogState → Type 0) → Dispatched → Type 0
OnState P (waits w) = P w.state
OnState P (acts action level w effect) = P w.state

count_at-Bounded : (s : WatchdogState) (b : Bool) → Bounded s → Bounded (count_at s b)
count_at-Bounded s true v = record {
  reregisters = v.reregisters;
  restarts = v.restarts;
  cycles = v.cycles;
  rests = v.rests;
}
count_at-Bounded s false v = record {
  reregisters = v.reregisters;
  restarts = v.restarts;
  cycles = v.cycles;
  rests = v.rests;
}

airplane-Bounded :
    (s : WatchdogState) (a : ActionAnswers) → Bounded s → Bounded (action_airplane_cycle s a)
unfolding action_airplane_cycle
airplane-Bounded s a v =
    if-cases Bounded a.cfun_off
      (λ _. count_at-Bounded (count_at s true) a.cfun_on (count_at-Bounded s true v))
      (λ _. count_at-Bounded s false v)

go_dormant-Bounded : (w : Watch) (now : ℕ) → Bounded w.state → Bounded (go_dormant w now).state
unfolding go_dormant
go_dormant-Bounded w now v = record {
  reregisters = v.reregisters;
  restarts = v.restarts;
  cycles = v.cycles;
  rests = λ _. refl;
}

pub notes-Bounded :
    (w : Watch) (x y : String) (n : ℕ) → Bounded w.state → Bounded (notes w x y n).state
unfolding notes
notes-Bounded w x y n v = record {
  reregisters = v.reregisters;
  restarts = v.restarts;
  cycles = v.cycles;
  rests = v.rests;
}

module _ (cfg : LteConfig) (secs : ℕ) (a : ActionAnswers) where
  abbrev P : Dispatched → Type 0
  P = OnState Bounded

  last_resort-Bounded : (w : Watch) → Bounded w.state → P (last_resort cfg secs a w)
  unfolding last_resort
  last_resort-Bounded w v =
      if-cases P (not (cooldown_elapsed w.state 3 a.now)) (λ _. v)
        (λ _. if-cases P (usb_allowed cfg secs a) (λ _. v) (λ _. go_dormant-Bounded w a.now v))

  cycle_radio-Bounded :
      (w : Watch) → w.state.airplane_cycles < 2 → Bounded w.state → P (cycle_radio cfg secs a w)
  unfolding cycle_radio
  cycle_radio-Bounded w h v =
      if-cases P (not (cooldown_elapsed w.state 1 a.now)) (λ _. v)
        (λ _. airplane-Bounded _ a (record {
          reregisters = v.reregisters;
          restarts = v.restarts;
          cycles = omega arith;
          rests = v.rests;
        }))

  restart-Bounded :
      (w : Watch) → w.state.iface_restarts < 2 → Bounded w.state → P (restart cfg secs a w)
  unfolding restart
  restart-Bounded w h v =
      if-cases P (not (cooldown_elapsed w.state 2 a.now)) (λ _. v)
        (λ _. record {
          reregisters = v.reregisters;
          restarts = omega arith;
          cycles = v.cycles;
          rests = v.rests;
        })

  register_again-Bounded :
      (w : Watch) → w.state.reregisters < 1 → Bounded w.state → P (register_again cfg secs a w)
  unfolding register_again
  register_again-Bounded w h v =
      if-cases P (not (cooldown_elapsed w.state 0 a.now)) (λ _. v)
        (λ _. count_at-Bounded _ a.cops (record {
          reregisters = omega arith;
          restarts = v.restarts;
          cycles = v.cycles;
          rests = v.rests;
        }))

  on_unresponsive-Bounded : (w : Watch) → Bounded w.state → P (on_unresponsive cfg secs a w)
  unfolding on_unresponsive
  on_unresponsive-Bounded w v =
      if-cases P (ltb w.state.consecutive_at_failures at_failure_skip_threshold)
        (λ _.
          if-cases P (ltb w.state.iface_restarts max_iface_restarts)
            (λ e. restart-Bounded w (ground (arith, e)) v) (λ _. v))
        (λ _. last_resort-Bounded w v)

  on_unknown-Bounded : (w : Watch) → Bounded w.state → P (on_unknown cfg secs a w)
  unfolding on_unknown
  on_unknown-Bounded w v =
      let u = cfg.unknown_action in
      if-cases P (not u.airplane_cycle && not u.escalate)
        (λ _. notes-Bounded w "unknown" "wait" a.epoch v)
        (λ _.
          if-cases P (u.airplane_cycle && ltb w.state.airplane_cycles max_airplane_cycles)
            (λ e. cycle_radio-Bounded w (ground (arith, e)) v)
            (λ _. if-cases P u.escalate (λ _. last_resort-Bounded w v) (λ _. v)))

  pub dispatch-Bounded :
      (symptom : Symptom) (w : Watch) → Bounded w.state → P (dispatch cfg secs a symptom w)
  unfolding dispatch on_searching on_no_data on_not_registered on_unresponsive on_unknown
  dispatch-Bounded (searching n) w v =
      if-cases P (ltb n _) (λ _. notes-Bounded w _ _ _ v)
        (λ _.
          if-cases P (leb _ w.state.airplane_cycles) (λ _. last_resort-Bounded _ v)
            (λ e. cycle_radio-Bounded w (ground (arith, e)) v))
  dispatch-Bounded registered_no_data w v =
      if-cases P (leb _ w.state.iface_restarts)
        (λ _.
          if-cases P (leb _ w.state.airplane_cycles) (λ _. last_resort-Bounded w v)
            (λ e. cycle_radio-Bounded w (ground (arith, e)) v))
        (λ e. restart-Bounded w (ground (arith, e)) v)
  dispatch-Bounded not_registered w v =
      if-cases P (ltb secs _) (λ _. v)
        (λ _.
          if-cases P (ltb w.state.reregisters _)
            (λ e. register_again-Bounded w (ground (arith, e)) v)
            (λ _.
              if-cases P (ltb w.state.airplane_cycles _)
                (λ e. cycle_radio-Bounded w (ground (arith, e)) v) (λ _. last_resort-Bounded w v)))
  dispatch-Bounded unresponsive w v =
      on_unresponsive-Bounded (with_state w (count_at w.state false))
        (count_at-Bounded w.state false v)
  dispatch-Bounded relay_problem w v = notes-Bounded w _ _ _ v
  dispatch-Bounded tunnel_reconnecting w v = v
  dispatch-Bounded internet_unreachable w v = notes-Bounded w _ _ _ v
  dispatch-Bounded modem_gone w v = go_dormant-Bounded _ a.now (notes-Bounded w _ _ _ v)
  dispatch-Bounded unknown w v = on_unknown-Bounded w v
