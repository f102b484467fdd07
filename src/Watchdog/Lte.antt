-- ===== src/Watchdog/Lte.antt =====
-- server/src/lte.rs: the part of the LTE state that the watchdog reads and writes. A signal strength
-- in dBm is a number with 2^31 added to it, so that the order is that of the `i32`.
use sctl.Prelude.{
  ℕ, ◌-◌, ◌^◌, Bool, true, ◌&&◌, not, List, [], ◌∷◌, Option, none, some, String, ltb, leb,
  if◌then◌else◌, length,
}

pub record ScanStatus : Type 0 where
  pub state : String
  pub started_at : ℕ
  pub completed_at : Option ℕ

pub record SafeBandConfig : Type 0 where
  pub bands : List ℕ
  pub priority_band : Option ℕ
  pub confirmed_at : ℕ
  pub signal_rsrp : Option ℕ

pub data BandChangeSource : Type 0 where
  user watchdog : BandChangeSource

pub record BandConfig : Type 0 where
  pub enabled_bands : List ℕ
  pub priority_band : Option ℕ

pub record LteSignal : Type 0 where
  pub rsrp : Option ℕ
  pub band_config : Option BandConfig

-- Instants are milliseconds.
pub record LteState : Type 0 where
  pub signal : Option LteSignal
  pub scan_status : Option ScanStatus
  pub band_action_until : Option ℕ
  pub safe_bands : Option SafeBandConfig
  pub bands_at_connect : Option (List ℕ)
  pub band_stable_since : Option ℕ
  pub last_band_change_at : Option ℕ
  pub pre_change_bands : Option (List ℕ × Option ℕ)
  pub last_user_action_at : Option ℕ

-- -110 dBm
abbrev pub safe_bands_min_rsrp : ℕ
safe_bands_min_rsrp = 2 ^ 31 - 110

abbrev pub rsrp_or_least : Option ℕ → ℕ
rsrp_or_least none = 0
rsrp_or_least (some r) = r

-- The quality gate: a weak signal does not replace a configuration with one at least as strong.
unfoldable pub passes_gate : Option ℕ → Option SafeBandConfig → Bool
passes_gate none existing = true
passes_gate (some rsrp) none = true
passes_gate (some rsrp) (some existing) =
    not (ltb rsrp safe_bands_min_rsrp && leb rsrp (rsrp_or_least existing.signal_rsrp))

-- `epoch` is the time of day in seconds. The file that is written is not modelled.
unfoldable pub promote_safe_bands : LteState → List ℕ → Option ℕ → Option ℕ → ℕ → LteState
unfolding passes_gate
promote_safe_bands l bands priority rsrp epoch =
    if ltb 64 (length bands)
    then l
    else if passes_gate rsrp l.safe_bands
    then record l {
      safe_bands = some (record {
        bands = bands;
        priority_band = priority;
        confirmed_at = epoch;
        signal_rsrp = rsrp;
      });
    }
    else l

-- `if !xs.is_empty()`: the second value, or else the first.
abbrev pub unless_empty {ℓ} : {A : Type ℓ} → List ℕ → A → A → A
unless_empty [] a b = a
unless_empty (x ∷ xs) a b = b

unfoldable pub record_band_change : LteState → BandChangeSource → List ℕ → Option ℕ → ℕ → LteState
record_band_change l watchdog current_bands current_priority now = record l {
  band_stable_since = none;
  bands_at_connect = none;
}
record_band_change l user current_bands current_priority now = record l {
  band_stable_since = none;
  bands_at_connect = none;
  last_band_change_at = some now;
  pre_change_bands =
      unless_empty current_bands l.pre_change_bands (some (current_bands, current_priority));
}
