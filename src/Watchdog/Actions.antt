-- ===== src/Watchdog/Actions.antt =====
-- server/src/lte_watchdog.rs: when the watchdog acts on the modem at all.
use sctl.Prelude.{
  Bool-cases, inl, inr, ℕ, ◌-◌, ◌*◌, ◌^◌, min, ◌≤◌, ◌≡◌, refl, Bool, ◌&&◌, ◌||◌, true, false, List,
  [], ◌∷◌, none, some, arith, leb, ltb, not, if◌then◌else◌, if-cases,
}
use native.Mathlib.Nat.{one-le-pow}
use sctl.Watchdog.State.{
  Symptom, searching, registered_no_data, not_registered, unresponsive, relay_problem,
  tunnel_reconnecting, internet_unreachable, modem_gone, unknown, WatchdogState, cooldown,
  cooldown_elapsed,
}
use sctl.Watchdog.Gate.{LteConfig}
use sctl.Watchdog.Dispatch.{
  Effect, reregister, airplane_cycle, restart_interface, usb_power_cycle, apply_bands, logs,
  exhausted, reports, Watch, ActionAnswers, Dispatched, waits, acts, count_at, last_resort,
  cycle_radio, restart, register_again, on_searching, on_no_data, on_not_registered,
  on_unresponsive, on_unknown, dispatch, usb_allowed, with_state, shows, at_failure_skip_threshold,
  max_iface_restarts, max_airplane_cycles, max_reregisters, searching_action_threshold,
}

-- The symptoms that an action on the modem may help.
abbrev pub is_actionable : Symptom → Bool
is_actionable (searching secs) = true
is_actionable registered_no_data = true
is_actionable not_registered = true
is_actionable unresponsive = true
is_actionable unknown = true
is_actionable _ = false

-- A minute, or a quarter of an hour for a dormant watchdog.
abbrev pub least_wait : WatchdogState → ℕ
least_wait s = if s.dormant then 900000 else 60000

-- At least that time has passed since the last action, if its time is recorded: a light or heavy
-- reset forgets it.
abbrev pub Rested : WatchdogState → ℕ → Type 0
Rested s now = elim s.last_action_at [ none ↦ Unit {0} | some last ↦ least_wait s ≤ now - last ]

max_l3_bounds : (n : ℕ) → 60000 ≤ min (300000 * 2 ^ min n 3) 1800000
max_l3_bounds n = omega (arith, one-le-pow (min n 3) 2 (omega arith))

cooldown-bounds : (s : WatchdogState) (level : ℕ) → least_wait s ≤ cooldown s level
unfolding cooldown
cooldown-bounds s level = elim (Bool-cases s.dormant) [
  | inl d ↦ ground (arith, d)
  | inr d ↦ ground (arith, d, active)
]
  where
    active : 60000 ≤ (
        if leb 3 level && ltb 0 s.l3_attempts
        then min (300000 * 2 ^ min s.l3_attempts 3) 1800000
        else if leb level 0
        then 60000
        else if leb level 2
        then 120000
        else 300000)
    active =
        if-cases (λ c. 60000 ≤ c) (leb 3 level && ltb 0 s.l3_attempts)
          (λ _. max_l3_bounds s.l3_attempts)
          (λ _.
            if-cases (λ c. 60000 ≤ c) (leb level 0) (λ _. omega arith)
              (λ _. if-cases (λ c. 60000 ≤ c) (leb level 2) (λ _. omega arith) (λ _. omega arith)))

Rested-cooldown :
    (s : WatchdogState) (level now : ℕ) → cooldown_elapsed s level now ≡ true → Rested s now
unfolding cooldown_elapsed
Rested-cooldown s level now h = ground (arith, cooldown-bounds s level)

abbrev pub is_usb : Effect → Bool
is_usb usb_power_cycle = true
is_usb _ = false

abbrev pub cycles_usb : List Effect → Bool
cycles_usb [] = false
cycles_usb (e ∷ es) = is_usb e || cycles_usb es

pub is_usb_iff : (e : Effect) → is_usb e ≡ true → e ≡ usb_power_cycle
is_usb_iff usb_power_cycle h = refl
is_usb_iff reregister h = cc
is_usb_iff airplane_cycle h = cc
is_usb_iff restart_interface h = cc
is_usb_iff (apply_bands bs p) h = cc
is_usb_iff (logs x n) h = cc
is_usb_iff (exhausted n) h = cc
is_usb_iff reports h = cc

abbrev pub OnAct : Type 0 → Dispatched → Type 0
OnAct P (waits w) = Unit {0}
OnAct P (acts action level w effect) = P

on_act : {P : Type 0} → P → (d : Dispatched) → OnAct P d
on_act p (waits w) = tt
on_act p (acts action level w effect) = p

module _ (cfg : LteConfig) (secs : ℕ) (a : ActionAnswers) where
  -- What an action needs.
  abbrev pub Needs : WatchdogState → Dispatched → Type 0
  Needs s (waits w) = Unit {0}
  Needs s (acts action level w effect) =
      Rested s a.now × (effect ≡ usb_power_cycle → usb_allowed cfg secs a ≡ true)

  module _ (w : Watch) where
    abbrev P : Dispatched → Type 0
    P = Needs w.state

    last_resort-Needs : P (last_resort cfg secs a w)
    unfolding last_resort
    last_resort-Needs =
        if-cases P (not (cooldown_elapsed w.state 3 a.now)) (λ _. tt)
          (λ c.
            if-cases P (usb_allowed cfg secs a)
              (λ e. (Rested-cooldown w.state 3 a.now (ground (arith, c)), λ _. e)) (λ _. tt))

    cycle_radio-Needs : P (cycle_radio cfg secs a w)
    unfolding cycle_radio
    cycle_radio-Needs =
        if-cases P (not (cooldown_elapsed w.state 1 a.now)) (λ _. tt)
          (λ c. (Rested-cooldown w.state 1 a.now (ground (arith, c)), λ e. cc))

    restart-Needs : P (restart cfg secs a w)
    unfolding restart
    restart-Needs =
        if-cases P (not (cooldown_elapsed w.state 2 a.now)) (λ _. tt)
          (λ c. (Rested-cooldown w.state 2 a.now (ground (arith, c)), λ e. cc))

    register_again-Needs : P (register_again cfg secs a w)
    unfolding register_again
    register_again-Needs =
        if-cases P (not (cooldown_elapsed w.state 0 a.now)) (λ _. tt)
          (λ c. (Rested-cooldown w.state 0 a.now (ground (arith, c)), λ e. cc))

    on_unresponsive-Needs : P (on_unresponsive cfg secs a w)
    unfolding on_unresponsive
    on_unresponsive-Needs =
        if-cases P (ltb w.state.consecutive_at_failures at_failure_skip_threshold)
          (λ _.
            if-cases P (ltb w.state.iface_restarts max_iface_restarts) (λ _. restart-Needs)
              (λ _. tt))
          (λ _. last_resort-Needs)

    on_unknown-Needs : P (on_unknown cfg secs a w)
    unfolding on_unknown
    on_unknown-Needs =
        let u = cfg.unknown_action in
        if-cases P (not u.airplane_cycle && not u.escalate) (λ _. tt)
          (λ _.
            if-cases P (u.airplane_cycle && ltb w.state.airplane_cycles max_airplane_cycles)
              (λ _. cycle_radio-Needs)
              (λ _. if-cases P u.escalate (λ _. last_resort-Needs) (λ _. tt)))

    on_no_data-Needs : P (on_no_data cfg secs a w)
    unfolding on_no_data
    on_no_data-Needs =
        if-cases P (leb max_iface_restarts w.state.iface_restarts)
          (λ _.
            if-cases P (leb max_airplane_cycles w.state.airplane_cycles) (λ _. last_resort-Needs)
              (λ _. cycle_radio-Needs))
          (λ _. restart-Needs)

    on_not_registered-Needs : P (on_not_registered cfg secs a w)
    unfolding on_not_registered
    on_not_registered-Needs =
        if-cases P (ltb secs cfg.notregistered_grace_secs) (λ _. tt)
          (λ _.
            if-cases P (ltb w.state.reregisters max_reregisters) (λ _. register_again-Needs)
              (λ _.
                if-cases P (ltb w.state.airplane_cycles max_airplane_cycles)
                  (λ _. cycle_radio-Needs) (λ _. last_resort-Needs)))

  pub dispatch-Needs :
      (symptom : Symptom) (w : Watch) → Needs w.state (dispatch cfg secs a symptom w)
  unfolding dispatch on_searching
  dispatch-Needs (searching n) w =
      if-cases (Needs w.state) (ltb n searching_action_threshold) (λ _. tt)
        (λ _.
          if-cases (Needs w.state) (leb max_airplane_cycles w.state.airplane_cycles)
            (λ _. last_resort-Needs (shows w "acting" a.now)) (λ _. cycle_radio-Needs w))
  dispatch-Needs registered_no_data w = on_no_data-Needs w
  dispatch-Needs not_registered w = on_not_registered-Needs w
  dispatch-Needs unresponsive w = on_unresponsive-Needs (with_state w (count_at w.state false))
  dispatch-Needs relay_problem w = tt
  dispatch-Needs tunnel_reconnecting w = tt
  dispatch-Needs internet_unreachable w = tt
  dispatch-Needs modem_gone w = tt
  dispatch-Needs unknown w = on_unknown-Needs w

  pub dispatch-actionable :
      (symptom : Symptom) (w : Watch)
      → OnAct (is_actionable symptom ≡ true) (dispatch cfg secs a symptom w)
  unfolding dispatch
  dispatch-actionable (searching n) w = on_act refl _
  dispatch-actionable registered_no_data w = on_act refl _
  dispatch-actionable not_registered w = on_act refl _
  dispatch-actionable unresponsive w = on_act refl _
  dispatch-actionable relay_problem w = tt
  dispatch-actionable tunnel_reconnecting w = tt
  dispatch-actionable internet_unreachable w = tt
  dispatch-actionable modem_gone w = tt
  dispatch-actionable unknown w = on_act refl _
