-- ===== src/Watchdog/Connected.antt =====
-- server/src/lte_watchdog.rs: a round with the tunnel up: the resets and the safe bands.
use sctl.Prelude.{
  ℕ, ◌-◌, Bool, true, false, not, ◌&&◌, ◌||◌, List, [], ◌∷◌, Option, none, some, leb, if◌then◌else◌,
}
use sctl.Prelude.Map.{map_option}
use sctl.Watchdog.Cereg.{then_option}
use sctl.Watchdog.State.{WatchdogState, light_reset, heavy_reset}
use sctl.Watchdog.Lte.{SafeBandConfig, LteState, LteSignal, promote_safe_bands}
use sctl.Watchdog.Dispatch.{Effect, reports, Watch, shows, with_state}
use sctl.Watchdog.Round.{
  safe_promote_threshold, light_reset_threshold, TickAnswers, Round, round, is_some, or_now,
}

-- The resets of a connected tunnel: after five minutes everything is forgotten, after 90 seconds all
-- but the attempts of level 3 and the dormant state. Only an episode that is still open is reset.
unfoldable pub settle : WatchdogState → ℕ → Bool → WatchdogState × List Effect
settle s now exhaustion_file =
    let since = or_now s.tunnel_connected_since now in
    let s' = record s { tunnel_connected_since = some since } in
    if not (is_some s.tunnel_disconnect_since)
    then (s', [])
    else if leb safe_promote_threshold (now - since)
    then (heavy_reset s', if s.dormant || exhaustion_file then reports ∷ [] else [])
    else if leb light_reset_threshold (now - since)
    then (light_reset s', [])
    else (s', [])

abbrev pub signal_bands : Option LteSignal → Option (List ℕ)
signal_bands none = none
signal_bands (some sig) = map_option (λ bc. bc.enabled_bands) sig.band_config

abbrev pub signal_priority : Option LteSignal → Option ℕ
signal_priority none = none
signal_priority (some sig) = then_option sig.band_config (λ bc. bc.priority_band)

abbrev pub same_bands : List ℕ → List ℕ → Bool
same_bands [] [] = true
same_bands [] (b ∷ bs) = false
same_bands (a ∷ as_) [] = false
same_bands (a ∷ as_) (b ∷ bs) = leb a b && leb b a && same_bands as_ bs

abbrev pub needs_promote : Option SafeBandConfig → List ℕ → Bool
needs_promote none current = true
needs_promote (some safe) current = not (same_bands safe.bands current)

-- The start of the stable time, with the bands at that time.
unfoldable pub mark_stable : LteState → ℕ → LteState
mark_stable l now = elim l.band_stable_since [
  | some t ↦ l
  | none ↦ record l {
    band_stable_since = some now;
    bands_at_connect = elim l.bands_at_connect [ some bs ↦ some bs | none ↦ signal_bands l.signal ];
  }
]

abbrev pub promote : LteState → Option (List ℕ) → ℕ → LteState
promote l none epoch = l
promote l (some current) epoch =
    if needs_promote l.safe_bands current
    then promote_safe_bands l current (signal_priority l.signal)
        (then_option l.signal (λ sig. sig.rsrp)) epoch
    else l

-- The promotion of the bands to safe bands, after five stable minutes.
unfoldable pub promote_stable : LteState → ℕ → ℕ → LteState
unfolding mark_stable
promote_stable l now epoch =
    let l' = mark_stable l now in
    if leb safe_promote_threshold (now - or_now l'.band_stable_since now)
    then record (promote l' l'.bands_at_connect epoch) {
      band_stable_since = none;
      bands_at_connect = none;
    }
    else l'

unfoldable pub on_connected : Watch → LteState → TickAnswers → Round
unfolding settle promote_stable
on_connected w l a =
    let (s, es) = settle w.state a.now a.exhaustion_file in
    round (shows (with_state w s) "connected" a.now) (promote_stable l a.now a.epoch) es
