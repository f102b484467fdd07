-- ===== src/Watchdog/Treat.antt =====
-- server/src/lte_watchdog.rs: the diagnosis of a round, and what follows an action.
use sctl.Prelude.{
  ℕ, Bool, true, false, not, ◌&&◌, List, [], ◌∷◌, ◌++◌, some, String, leb, if◌then◌else◌, add_u32,
}
use sctl.Watchdog.State.{Symptom, unresponsive, as_str, WatchdogState, light_reset, record_action}
use sctl.Watchdog.Gate.{LteConfig, diagnose}
use sctl.Watchdog.Dispatch.{
  Effect, restart_interface, logs, exhausted, Watch, Dispatched, waits, acts, shows, notes,
  with_state, dispatch,
}
use sctl.Watchdog.Round.{max_l3_attempts, TickAnswers}

abbrev pub is_unresponsive : Symptom → Bool
is_unresponsive unresponsive = true
is_unresponsive _ = false

abbrev pub dormant_or_acting : WatchdogState → String
dormant_or_acting s = if s.dormant then "dormant" else "acting"

-- A USB cycle that did not help is counted; the third one makes the watchdog dormant.
unfoldable pub count_l3 : WatchdogState → ℕ → WatchdogState × List Effect
count_l3 s level =
    if leb 3 level
    then (let n = add_u32 s.l3_attempts 1 in
        if leb max_l3_attempts n
        then (record s { l3_attempts = n; dormant = true }, exhausted n ∷ [])
        else (record s { l3_attempts = n }, []))
    else (s, [])

-- The state when the action is logged.
abbrev pub logged : Watch → Symptom → String → TickAnswers → Watch
logged w symptom action a =
    let s =
      if is_unresponsive symptom
      then w.state
      else record (w.state) { consecutive_at_failures = 0 } in
    notes (with_state w (record_action s action a.acted_at)) (as_str symptom) action a.epoch

-- What follows an action: its log, the nudge of the interface, and the check whether it helped.
unfoldable pub after_action :
    Watch → Symptom → String → ℕ → Effect → TickAnswers → Watch × List Effect
unfolding count_l3
after_action w symptom action level effect a =
    let noted = logged w symptom action a in
    let nudge = if leb level 1 && not a.has_ipv4 then restart_interface ∷ [] else [] in
    let es = effect ∷ logs action level ∷ nudge in
    if a.recovered
    then (shows (with_state noted (light_reset noted.state)) "recovered" a.acted_at, es)
    else (let (s', exhaustion) = count_l3 noted.state level in
        (shows (with_state noted s') (dormant_or_acting s') a.acted_at, es ++ exhaustion))

abbrev pub finish : Dispatched → Symptom → TickAnswers → Watch × List Effect
finish (waits w) symptom a = (w, [])
finish (acts action level w effect) symptom a = after_action w symptom action level effect a

-- The diagnosis, and what is done about it.
unfoldable pub treat : LteConfig → Watch → ℕ → TickAnswers → Watch × List Effect
unfolding after_action
treat cfg w disconnect_secs a =
    let symptom = (diagnose a.observed w.state a.action.now).0 in
    finish
      (dispatch cfg disconnect_secs a.action symptom
        (with_state w (record (w.state) { last_symptom = some symptom })))
      symptom a
