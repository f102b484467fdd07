-- ===== src/Watchdog/Spending.antt =====
-- server/src/lte_watchdog.rs: each action on the modem is counted when it is chosen.
use sctl.Prelude.{
  ℕ, ◌+◌, ◌≤◌, ◌<◌, Bool, ◌&&◌, true, false, not, arith, leb, ltb, if◌then◌else◌, if-cases, String,
}
use sctl.Watchdog.State.{
  Symptom, searching, registered_no_data, not_registered, unresponsive, relay_problem,
  tunnel_reconnecting, internet_unreachable, modem_gone, unknown, WatchdogState, cooldown_elapsed,
}
use sctl.Watchdog.Gate.{LteConfig}
use sctl.Watchdog.Dispatch.{
  Effect, reregister, airplane_cycle, restart_interface, Watch, ActionAnswers, Dispatched, waits,
  acts, count_at, action_airplane_cycle, last_resort, cycle_radio, restart, register_again,
  on_searching, on_no_data, on_not_registered, on_unresponsive, on_unknown, dispatch, usb_allowed,
  with_state, shows, notes, go_dormant, at_failure_skip_threshold, max_iface_restarts,
  max_airplane_cycles, max_reregisters, searching_action_threshold,
}

abbrev pub is_reregister : Effect → Bool
is_reregister reregister = true
is_reregister _ = false

abbrev pub is_airplane_cycle : Effect → Bool
is_airplane_cycle airplane_cycle = true
is_airplane_cycle _ = false

abbrev pub is_restart : Effect → Bool
is_restart restart_interface = true
is_restart _ = false

abbrev pub one_if : Bool → ℕ
one_if b = if b then 1 else 0

-- The counters of an episode have grown at least by these numbers.
pub record Grown (s after : WatchdogState) (registrations cycles restarts : ℕ) : Type 0 where
  pub registered : s.reregisters + registrations ≤ after.reregisters
  pub cycled : s.airplane_cycles + cycles ≤ after.airplane_cycles
  pub restarted : s.iface_restarts + restarts ≤ after.iface_restarts

-- A chosen action has been counted. One whose level asks for a check of the interface, which may
-- restart it as well, is a registration or an airplane cycle.
abbrev pub Paid : WatchdogState → Dispatched → Type 0
Paid s (waits w) = Grown s w.state 0 0 0
Paid s (acts action level w effect) =
    Grown s w.state (one_if (is_reregister effect)) (one_if (is_airplane_cycle effect))
      (one_if (is_restart effect))
    × (one_if (leb level 1) ≤ one_if (is_reregister effect) + one_if (is_airplane_cycle effect))

pub still : (s : WatchdogState) → Grown s s 0 0 0
still s = record { registered = omega arith; cycled = omega arith; restarted = omega arith }

count_at-Grown :
    (s t : WatchdogState) (b : Bool) {r c i : ℕ} → Grown s t r c i → Grown s (count_at t b) r c i
count_at-Grown s t true g = record {
  registered = g.registered;
  cycled = g.cycled;
  restarted = g.restarted;
}
count_at-Grown s t false g = record {
  registered = g.registered;
  cycled = g.cycled;
  restarted = g.restarted;
}

airplane-Grown :
    (s t : WatchdogState) (a : ActionAnswers) {r c i : ℕ}
    → Grown s t r c i
    → Grown s (action_airplane_cycle t a) r c i
unfolding action_airplane_cycle
airplane-Grown s t a {r} {c} {i} g =
    if-cases (λ u. Grown s u r c i) a.cfun_off
      (λ _. count_at-Grown s (count_at t true) a.cfun_on (count_at-Grown s t true g))
      (λ _. count_at-Grown s t false g)

-- The failures of AT commands are not among these counters.
Paid-count_at : (s : WatchdogState) (d : Dispatched) → Paid (count_at s false) d → Paid s d
Paid-count_at s (waits w) g = record {
  registered = g.registered;
  cycled = g.cycled;
  restarted = g.restarted;
}
Paid-count_at s (acts action level w effect) (g, l) =
    (record { registered = g.registered; cycled = g.cycled; restarted = g.restarted }, l)

module _ (cfg : LteConfig) (secs : ℕ) (a : ActionAnswers) where
  module _ (w : Watch) where
    abbrev P : Dispatched → Type 0
    P = Paid w.state

    last_resort-Paid : P (last_resort cfg secs a w)
    unfolding last_resort go_dormant
    last_resort-Paid =
        if-cases P (not (cooldown_elapsed w.state 3 a.now)) (λ _. still w.state)
          (λ _.
            if-cases P (usb_allowed cfg secs a)
              (λ _. (
                record { registered = omega arith; cycled = omega arith; restarted = omega arith },
                omega arith,
              ))
              (λ _. record {
                registered = omega arith;
                cycled = omega arith;
                restarted = omega arith;
              }))

    cycle_radio-Paid : w.state.airplane_cycles < 2 → P (cycle_radio cfg secs a w)
    unfolding cycle_radio
    cycle_radio-Paid h =
        if-cases P (not (cooldown_elapsed w.state 1 a.now)) (λ _. still w.state)
          (λ _. (
            airplane-Grown w.state _ a (record {
              registered = omega arith;
              cycled = omega (arith, h);
              restarted = omega arith;
            }),
            omega arith,
          ))

    restart-Paid : w.state.iface_restarts < 2 → P (restart cfg secs a w)
    unfolding restart
    restart-Paid h =
        if-cases P (not (cooldown_elapsed w.state 2 a.now)) (λ _. still w.state)
          (λ _. (
            record { registered = omega arith; cycled = omega arith; restarted = omega (arith, h) },
            omega arith,
          ))

    register_again-Paid : w.state.reregisters < 1 → P (register_again cfg secs a w)
    unfolding register_again
    register_again-Paid h =
        if-cases P (not (cooldown_elapsed w.state 0 a.now)) (λ _. still w.state)
          (λ _. (
            count_at-Grown w.state _ a.cops (record {
              registered = omega (arith, h);
              cycled = omega arith;
              restarted = omega arith;
            }),
            omega arith,
          ))

    on_unresponsive-Paid : P (on_unresponsive cfg secs a w)
    unfolding on_unresponsive
    on_unresponsive-Paid =
        if-cases P (ltb w.state.consecutive_at_failures at_failure_skip_threshold)
          (λ _.
            if-cases P (ltb w.state.iface_restarts max_iface_restarts)
              (λ e. restart-Paid (ground (arith, e))) (λ _. still w.state))
          (λ _. last_resort-Paid)

    on_no_data-Paid : P (on_no_data cfg secs a w)
    unfolding on_no_data
    on_no_data-Paid =
        if-cases P (leb max_iface_restarts w.state.iface_restarts)
          (λ _.
            if-cases P (leb max_airplane_cycles w.state.airplane_cycles) (λ _. last_resort-Paid)
              (λ e. cycle_radio-Paid (ground (arith, e))))
          (λ e. restart-Paid (ground (arith, e)))

    on_not_registered-Paid : P (on_not_registered cfg secs a w)
    unfolding on_not_registered
    on_not_registered-Paid =
        if-cases P (ltb secs cfg.notregistered_grace_secs) (λ _. still w.state)
          (λ _.
            if-cases P (ltb w.state.reregisters max_reregisters)
              (λ e. register_again-Paid (ground (arith, e)))
              (λ _.
                if-cases P (ltb w.state.airplane_cycles max_airplane_cycles)
                  (λ e. cycle_radio-Paid (ground (arith, e))) (λ _. last_resort-Paid)))

    noted : (x y : String) (n : ℕ) → Grown w.state (notes w x y n).state 0 0 0
    unfolding notes
    noted x y n = record { registered = omega arith; cycled = omega arith; restarted = omega arith }

    gone : (x y : String) (n : ℕ) → Grown w.state (go_dormant (notes w x y n) a.now).state 0 0 0
    unfolding notes go_dormant
    gone x y n = record { registered = omega arith; cycled = omega arith; restarted = omega arith }

    on_unknown-Paid : P (on_unknown cfg secs a w)
    unfolding on_unknown
    on_unknown-Paid =
        let u = cfg.unknown_action in
        if-cases P (not u.airplane_cycle && not u.escalate) (λ _. noted "unknown" "wait" a.epoch)
          (λ _.
            if-cases P (u.airplane_cycle && ltb w.state.airplane_cycles max_airplane_cycles)
              (λ e. cycle_radio-Paid (ground (arith, e)))
              (λ _. if-cases P u.escalate (λ _. last_resort-Paid) (λ _. still w.state)))

  pub dispatch-Paid : (symptom : Symptom) (w : Watch) → Paid w.state (dispatch cfg secs a symptom w)
  unfolding dispatch on_searching
  dispatch-Paid (searching n) w =
      if-cases (Paid w.state) (ltb n searching_action_threshold)
        (λ _. noted w "searching" "wait" a.epoch)
        (λ _.
          if-cases (Paid w.state) (leb max_airplane_cycles w.state.airplane_cycles)
            (λ _. last_resort-Paid (shows w "acting" a.now))
            (λ e. cycle_radio-Paid w (ground (arith, e))))
  dispatch-Paid registered_no_data w = on_no_data-Paid w
  dispatch-Paid not_registered w = on_not_registered-Paid w
  dispatch-Paid unresponsive w =
      Paid-count_at w.state _ (on_unresponsive-Paid (with_state w (count_at w.state false)))
  dispatch-Paid relay_problem w = noted w "relay_problem" "wait" a.epoch
  dispatch-Paid tunnel_reconnecting w = still w.state
  dispatch-Paid internet_unreachable w = noted w "internet_unreachable" "wait" a.epoch
  dispatch-Paid modem_gone w = gone w "modem_gone" "wait" a.epoch
  dispatch-Paid unknown w = on_unknown-Paid w
