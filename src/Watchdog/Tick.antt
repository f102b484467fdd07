-- ===== src/Watchdog/Tick.antt =====
-- server/src/lte_watchdog.rs: one round of the watchdog's loop.
use sctl.Prelude.{
  ◌∷◌, [], ℕ, ◌-◌, ◌/◌, Bool, true, false, List, [], ◌++◌, Option, none, some, ltb, if◌then◌else◌,
}
use sctl.Watchdog.Cereg.{RegistrationStatus, parse_cereg, then_option}
use sctl.Watchdog.Cereg
use sctl.Watchdog.Lte.{LteState}
use sctl.Watchdog.Gate.{LteConfig}
use sctl.Watchdog.Dispatch.{Effect, Watch, shows, with_state}
use sctl.Watchdog.Round.{TickAnswers, Round, round, skip_tick, user_suppressed, or_now}
use sctl.Watchdog.Connected.{on_connected}
use sctl.Watchdog.Reverts.{open_episode, effective_grace, prechange_revert, safe_revert}
use sctl.Watchdog.Treat.{treat}

unfoldable pub after_safe : LteConfig → ℕ → TickAnswers → List Effect → Bool × Round → Round
after_safe cfg secs a before (true, r) = record r { effects = before ++ r.effects }
after_safe cfg secs a before (false, r) =
    let (w, es) = treat cfg r.watch secs a in
    record r { watch = w; effects = before ++ r.effects ++ es }

unfoldable pub after_prechange : LteConfig → ℕ → TickAnswers → Bool × Round → Round
unfolding after_safe
after_prechange cfg secs a (true, r) = r
after_prechange cfg secs a (false, r) =
    after_safe cfg secs a r.effects (safe_revert r.watch r.lte a)

-- Whether the modem says that it is searching.
abbrev pub is_searching : Option RegistrationStatus → Bool
is_searching none = false
is_searching (some Cereg.searching) = true
is_searching (some _) = false

unfoldable pub on_disconnected : LteConfig → Watch → LteState → TickAnswers → Round
unfolding open_episode after_prechange
on_disconnected cfg w l a =
    let search = is_searching (then_option a.cereg parse_cereg) in
    let w' = with_state w (open_episode w.state a.now search) in
    let l' = record l { band_stable_since = none; bands_at_connect = none } in
    let lasted = a.now - or_now w'.state.tunnel_disconnect_since a.now in
    if ltb lasted (effective_grace cfg search)
    then round (shows w' "grace" a.now) l' []
    else after_prechange cfg (lasted / 1000) a (prechange_revert w' l' a)

-- A round of `spawn_lte_watchdog`'s loop.
unfoldable pub tick : LteConfig → Watch → LteState → TickAnswers → Round
unfolding skip_tick on_connected on_disconnected
tick cfg w l a =
    let (skip, l') = skip_tick l a.now a.epoch in
    if skip
    then round (shows w "suppressed_scan" a.now) l' []
    else if user_suppressed l' a.now
    then round (shows w "suppressed_user" a.now) l' []
    else if a.connected
    then on_connected w l' a
    else on_disconnected cfg w l' a

-- The loop over the rounds, with the modem's shared state at the start of each.
unfoldable pub run : LteConfig → Watch → List (LteState × TickAnswers) → Watch
unfolding tick
run cfg w [] = w
run cfg w ((l, a) ∷ rounds) = run cfg (tick cfg w l a).watch rounds
