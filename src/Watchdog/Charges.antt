-- ===== src/Watchdog/Charges.antt =====
-- server/src/lte_watchdog.rs: an action with what follows it, and what they spend.
use sctl.Prelude.{
  ℕ, refl, Bool, ◌&&◌, inl, inr, not, List, [], ◌∷◌, ◌++◌, some, String, arith, leb, if◌then◌else◌,
  if-cases, add_u32,
}
use sctl.Watchdog.State.{Symptom, as_str, WatchdogState, light_reset, record_action}
use sctl.Watchdog.Gate.{LteConfig, diagnose}
use sctl.Watchdog.Dispatch.{
  Effect, restart_interface, logs, Watch, Dispatched, waits, acts, with_state, notes, dispatch,
}
use sctl.Watchdog.Round.{TickAnswers, max_l3_attempts}
use sctl.Watchdog.Treat.{is_unresponsive, count_l3, logged, after_action, finish, treat}
use sctl.Watchdog.Bounds.{Bounded, OnState, dispatch-Bounded}
use sctl.Watchdog.Spending.{
  is_reregister, is_airplane_cycle, is_restart, Grown, Paid, dispatch-Paid, still,
}
use sctl.Watchdog.Accounts.{Free_nothing}
use sctl.Watchdog.Episodes.{
  Spent, add, Within, Covered, Covered-Within, Grown-Covered, Free, count-append, Accounted,
  Accounted-Free,
}

-- The state when the action is logged has the same counters.
logged-Grown :
    (w : Watch) (symptom : Symptom) (action : String) (a : TickAnswers)
    → Grown w.state (logged w symptom action a).state 0 0 0
unfolding notes record_action
logged-Grown w symptom action a =
    if-cases
      (λ (s : WatchdogState).
        Grown w.state
          (notes (with_state w (record_action s action a.acted_at)) (as_str symptom) action
            a.epoch).state
          0 0 0)
      (is_unresponsive symptom)
      (λ _. record { registered = omega arith; cycled = omega arith; restarted = omega arith })
      (λ _. record { registered = omega arith; cycled = omega arith; restarted = omega arith })

count_l3-Grown :
    (s : WatchdogState) (level : ℕ) → Grown s (count_l3 s level).0 0 0 0 × Free (count_l3 s level).1
unfolding count_l3
count_l3-Grown s level =
    let P : WatchdogState × List Effect → Type 0 = λ r. Grown s r.0 0 0 0 × Free r.1 in
    let n = add_u32 s.l3_attempts 1 in
    if-cases P (leb 3 level)
      (λ _.
        if-cases P (leb max_l3_attempts n)
          (λ _. (
            record { registered = omega arith; cycled = omega arith; restarted = omega arith },
            record { registrations = refl; cycles = refl; restarts = refl },
          ))
          (λ _. (
            record { registered = omega arith; cycled = omega arith; restarted = omega arith },
            Free_nothing,
          )))
      (λ _. (still s, Free_nothing))

-- An action that has been counted, with the restart of the interface that may follow it.
counted :
    (t : Spent) (s : WatchdogState) (v : Watch) (action : String) (level : ℕ) (effect : Effect)
    (nudged : Bool)
    → Covered t s
    → Paid s (acts action level v effect)
    → Covered
        (add t (
          effect
          ∷ logs action level
          ∷ (if leb level 1 && nudged then restart_interface ∷ [] else [])))
        v.state
counted t s v action level effect nudged c (g, l) = record {
  registrations = ground (arith, c.registrations, g.registered);
  cycles = ground (arith, c.cycles, g.cycled);
  restarts = ground (arith, c.restarts, g.registered, g.cycled, g.restarted, l);
}

-- Free effects after others.
before-Free :
    (t : Spent) (es after : List Effect) (s : WatchdogState)
    → Free after
    → Covered (add t es) s
    → Covered (add t (es ++ after)) s
before-Free t es after s f c = record {
  registrations =
      omega (arith, c.registrations, f.registrations, count-append is_reregister es after);
  cycles = omega (arith, c.cycles, f.cycles, count-append is_airplane_cycle es after);
  restarts = omega (arith, c.restarts, f.restarts, count-append is_restart es after);
}

after_action-Accounted :
    (t : Spent) (s : WatchdogState) (v : Watch) (symptom : Symptom) (action : String) (level : ℕ)
    (effect : Effect) (a : TickAnswers)
    → Covered t s
    → Bounded v.state
    → Paid s (acts action level v effect)
    → let r = after_action v symptom action level effect a in Accounted t r.1 r.0.state
unfolding after_action light_reset
after_action-Accounted t s v symptom action level effect a c b p =
    let es =
      effect
      ∷ logs action level
      ∷ (if leb level 1 && not a.has_ipv4 then restart_interface ∷ [] else []) in
    let k : Covered (add t es) v.state = counted t s v action level effect (not a.has_ipv4) c p in
    let w : Within (add t es) = Covered-Within (add t es) v.state k b in
    let noted = logged v symptom action a in
    let l3 = count_l3-Grown noted.state level in
    let k' : Covered (add t (es ++ (count_l3 noted.state level).1)) v.state =
      before-Free t es _ v.state l3.1 k in
    if-cases (λ (r : Watch × List Effect). Accounted t r.1 r.0.state) a.recovered
      (λ _. record { within = w; covered = inl refl })
      (λ _. record {
        within = Covered-Within _ v.state k' b;
        covered = inr (
            Grown-Covered _ noted.state (count_l3 noted.state level).0
              (Grown-Covered _ v.state noted.state k' (logged-Grown v symptom action a)) l3.0);
      })

finish-Accounted :
    (t : Spent) (s : WatchdogState) (d : Dispatched) (symptom : Symptom) (a : TickAnswers)
    → Covered t s
    → OnState Bounded d
    → Paid s d
    → Accounted t (finish d symptom a).1 (finish d symptom a).0.state
finish-Accounted t s (waits w) symptom a c b p =
    Accounted-Free t [] w.state Free_nothing b (Grown-Covered t s w.state c p)
finish-Accounted t s (acts action level v effect) symptom a c b p =
    after_action-Accounted t s v symptom action level effect a c b p

pub treat-Accounted :
    (cfg : LteConfig) (w : Watch) (secs : ℕ) (a : TickAnswers) (t : Spent)
    → Bounded w.state
    → Covered t w.state
    → Accounted t (treat cfg w secs a).1 (treat cfg w secs a).0.state
unfolding treat
treat-Accounted cfg w secs a t v c =
    let symptom = (diagnose a.observed w.state a.action.now).0 in
    let w' = with_state w (record (w.state) { last_symptom = some symptom }) in
    finish-Accounted t w'.state (dispatch cfg secs a.action symptom w') symptom a
      (record { registrations = c.registrations; cycles = c.cycles; restarts = c.restarts })
      (dispatch-Bounded cfg secs a.action symptom w' (record {
        reregisters = v.reregisters;
        restarts = v.restarts;
        cycles = v.cycles;
        rests = v.rests;
      }))
      (dispatch-Paid cfg secs a.action symptom w')
