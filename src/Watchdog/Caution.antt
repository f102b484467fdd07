-- ===== src/Watchdog/Caution.antt =====
-- server/src/lte_watchdog.rs: a treatment acts only with cause, and cycles the USB power only if
-- the gate allows it.
use sctl.Prelude.{
  arith, add_u32, ℕ, ◌≡◌, ◌≢◌, refl, sym, ◌∙◌, Bool, ◌&&◌, ◌||◌, true, false, List, [], ◌∷◌, ◌++◌,
  String, leb, not, if◌then◌else◌, if-cases,
}
use sctl.Watchdog.State.{Symptom, WatchdogState}
use sctl.Watchdog.Gate.{LteConfig, diagnose}
use sctl.Watchdog.Dispatch.{
  exhausted, Effect, restart_interface, logs, Watch, Dispatched, waits, acts, usb_allowed,
}
use sctl.Watchdog.Round.{max_l3_attempts, TickAnswers}
use sctl.Watchdog.Treat.{logged, treat, after_action, finish, count_l3}
use sctl.Watchdog.Actions.{
  is_actionable, Rested, is_usb, cycles_usb, is_usb_iff, OnAct, Needs, dispatch-Needs,
  dispatch-actionable,
}

pub cycles_usb-append :
    (xs ys : List Effect) → cycles_usb (xs ++ ys) ≡ (cycles_usb xs || cycles_usb ys)
cycles_usb-append [] ys = refl
cycles_usb-append (x ∷ xs) ys = ground (arith, cycles_usb-append xs ys)

nudge-usb : (b : Bool) → cycles_usb (if b then restart_interface ∷ [] else []) ≡ false
nudge-usb true = refl
nudge-usb false = refl

exhaustion-usb :
    (b : Bool) (s s' : WatchdogState) (n : ℕ)
    → cycles_usb
        (if◌then◌else◌ {A = WatchdogState × List Effect} b (s, exhausted n ∷ []) (s', [])).1
      ≡ false
exhaustion-usb true s s' n = refl
exhaustion-usb false s s' n = refl

count_l3-usb : (s : WatchdogState) (level : ℕ) → cycles_usb (count_l3 s level).1 ≡ false
unfolding count_l3
count_l3-usb s level =
    if-cases (λ (r : WatchdogState × List Effect). cycles_usb r.1 ≡ false) (leb 3 level)
      (λ _. exhaustion-usb (leb max_l3_attempts (add_u32 s.l3_attempts 1)) _ _ _) (λ _. refl)

effects-usb :
    (effect : Effect) (action : String) (level : ℕ) (b : Bool) (more : List Effect)
    → cycles_usb more ≡ false
    → cycles_usb ((effect ∷ logs action level ∷ (if b then restart_interface ∷ [] else [])) ++ more)
      ≡ is_usb effect
effects-usb effect action level b more h =
    ground
      (arith, cycles_usb-append (if b then restart_interface ∷ [] else []) more, nudge-usb b, h)

after_action-usb :
    (v : Watch) (symptom : Symptom) (action : String) (level : ℕ) (effect : Effect)
    (a : TickAnswers)
    → cycles_usb (after_action v symptom action level effect a).1 ≡ is_usb effect
unfolding after_action
after_action-usb v symptom action level effect a =
    if-cases (λ (r : Watch × List Effect). cycles_usb r.1 ≡ is_usb effect) a.recovered
      (λ _. ground (arith, nudge-usb (leb level 1 && not a.has_ipv4)))
      (λ _.
        effects-usb effect action level (leb level 1 && not a.has_ipv4) _
          (count_l3-usb (logged v symptom action a).state level))

module _ (cfg : LteConfig) (w : Watch) (secs : ℕ) (a : TickAnswers) where
  abbrev pub symptom : Symptom
  symptom = (diagnose a.observed w.state a.action.now).0

  finish-acts :
      (d : Dispatched)
      → (finish d symptom a).1 ≢ []
      → Needs cfg secs a.action w.state d
      → OnAct (is_actionable symptom ≡ true) d
      → (is_actionable symptom ≡ true) × Rested w.state a.action.now
  finish-acts (waits v) h needs act = absurd (h refl)
  finish-acts (acts action level v effect) h needs act = (act, needs.0)

  -- A treatment that does anything has diagnosed a symptom that an action on the modem may help.
  -- If the watchdog has a time of its last action, that action is at least a minute ago, or a
  -- quarter of an hour if the watchdog is dormant; a reset forgets the time, and then nothing is
  -- said of the actions before it.
  pub treat-acts :
      (treat cfg w secs a).1 ≢ [] → (is_actionable symptom ≡ true) × Rested w.state a.action.now
  unfolding treat
  treat-acts h =
      finish-acts _ h (dispatch-Needs cfg secs a.action symptom _)
        (dispatch-actionable cfg secs a.action symptom _)

  finish-usb :
      (d : Dispatched)
      → cycles_usb (finish d symptom a).1 ≡ true
      → Needs cfg secs a.action w.state d
      → usb_allowed cfg secs a.action ≡ true
  finish-usb (waits v) h needs = cc
  finish-usb (acts action level v effect) h needs =
      needs.1 (is_usb_iff effect (sym (after_action-usb v symptom action level effect a) ∙ h))

  pub treat-usb : cycles_usb (treat cfg w secs a).1 ≡ true → usb_allowed cfg secs a.action ≡ true
  unfolding treat
  treat-usb h = finish-usb _ h (dispatch-Needs cfg secs a.action symptom _)
