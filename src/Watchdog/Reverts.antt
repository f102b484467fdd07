-- ===== src/Watchdog/Reverts.antt =====
-- server/src/lte_watchdog.rs: a round with the tunnel down: the episode, and the reverts of the bands.
use sctl.Prelude.{
  ℕ, ◌+◌, ◌-◌, ◌*◌, Bool, true, false, not, ◌&&◌, List, [], ◌∷◌, Option, none, some, String, ltb,
  if◌then◌else◌,
}
use sctl.Watchdog.State.{WatchdogState, light_reset, record_action}
use sctl.Watchdog.Lte.{SafeBandConfig, LteState, watchdog, record_band_change}
use sctl.Watchdog.Gate.{LteConfig}
use sctl.Watchdog.Dispatch.{apply_bands, logs, Watch, notes, with_state}
use sctl.Watchdog.Round.{
  searching_grace_extension, prechange_revert_window, RevertAnswers, TickAnswers, Round, round,
  or_now,
}
use sctl.Watchdog.Connected.{same_bands}

-- The start of the episode, and of the modem's search.
unfoldable pub open_episode : WatchdogState → ℕ → Bool → WatchdogState
open_episode s now is_searching = record s {
  tunnel_connected_since = none;
  tunnel_disconnect_since = some (or_now s.tunnel_disconnect_since now);
  searching_since = if is_searching then some (or_now s.searching_since now) else none;
}

abbrev pub effective_grace : LteConfig → Bool → ℕ
effective_grace cfg is_searching =
    cfg.watchdog_grace_secs * 1000 + (if is_searching then searching_grace_extension else 0)

-- What a revert leaves: `continue` if it brought the tunnel back.
unfoldable pub after_revert :
    Watch → LteState → String → List ℕ → Option ℕ → RevertAnswers → ℕ → Bool × Round
after_revert w l name bands priority r epoch =
    if not r.applied
    then (false, round w l (apply_bands bands priority ∷ []))
    else (let l' = record_band_change l watchdog [] none r.now in
        let noted = notes (with_state w (record_action w.state name r.now)) name name epoch in
        let es = apply_bands bands priority ∷ logs name 0 ∷ [] in
        if r.recovered
        then (true, round (with_state noted (light_reset noted.state)) l' es)
        else (false, round noted l' es))

-- The bands before the last change by a user, if it was less than three minutes ago and the tunnel
-- went down after it.
abbrev pub prechange_bands :
    WatchdogState → Option ℕ → Option (List ℕ × Option ℕ) → ℕ → Option (List ℕ × Option ℕ)
prechange_bands s none bands now = none
prechange_bands s (some changed_at) none now = none
prechange_bands s (some changed_at) (some bands) now =
    if ltb (now - changed_at) prechange_revert_window
      && ltb changed_at (or_now s.tunnel_disconnect_since 0)
    then some bands
    else none

unfoldable pub restore : Watch → LteState → TickAnswers → Option (List ℕ × Option ℕ) → Bool × Round
unfolding after_revert
restore w l a none = (false, round w l [])
restore w l a (some (bands, priority)) =
    after_revert (with_state w (record (w.state) { tried_prechange_revert = true })) l
      "prechange_revert" bands priority a.prechange a.epoch

unfoldable pub prechange_revert : Watch → LteState → TickAnswers → Bool × Round
unfolding restore
prechange_revert w l a =
    if w.state.tried_prechange_revert
    then (false, round w l [])
    else restore w l a (prechange_bands w.state l.last_band_change_at l.pre_change_bands a.now)

abbrev pub differs : Option (List ℕ) → List ℕ → Bool
differs none safe = true
differs (some bands) safe = not (same_bands bands safe)

unfoldable pub restore_safe : Watch → LteState → TickAnswers → Option SafeBandConfig → Bool × Round
unfolding after_revert
restore_safe w l a none = (false, round w l [])
restore_safe w l a (some sb) =
    if differs a.current_bands sb.bands
    then after_revert (with_state w (record (w.state) { tried_safe_revert = true })) l "safe_revert"
        sb.bands sb.priority_band a.safe a.epoch
    else (false, round w l [])

unfoldable pub safe_revert : Watch → LteState → TickAnswers → Bool × Round
unfolding restore_safe
safe_revert w l a =
    if w.state.tried_safe_revert then (false, round w l []) else restore_safe w l a l.safe_bands
