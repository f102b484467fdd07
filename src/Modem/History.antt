-- ===== src/Modem/History.antt =====
-- server/src/lte.rs: the history of the signal by band, and the table of channel numbers. A signal
-- strength in dBm has 2^31 added to it. The quality values that are only stored (rsrq, sinr) are
-- left out, and a count of observations stays below 2^64.
use sctl.Prelude.{
  ℕ, ◌+◌, Bool, ◌&&◌, List, [], ◌∷◌, Option, none, some, leb, ltb, if◌then◌else◌, nat_eq, true,
  false,
}
use sctl.Prelude.Map.{lookup, insert}
use sctl.Prelude.Ring.{push_bounded}

pub record NeighborCell : Type 0 where
  pub earfcn : ℕ
  pub pci : ℕ
  pub rsrp : Option ℕ

-- The fields of an `LteSignal` that the history uses.
pub record Signal : Type 0 where
  pub freq_band : Option ℕ
  pub rsrp : Option ℕ
  pub pci : Option ℕ
  pub neighbors : List NeighborCell
  pub recorded_at : ℕ

pub record BandObservation : Type 0 where
  pub rsrp : ℕ
  pub pci : ℕ
  pub recorded_at : ℕ
  pub serving : Bool

pub record BandHistoryEntry : Type 0 where
  pub band : ℕ
  pub best_rsrp : ℕ
  pub latest_rsrp : ℕ
  pub observation_count : ℕ
  pub last_seen : ℕ
  pub recent : List BandObservation

abbrev pub max_band_observations : ℕ
max_band_observations = 20

-- A band with the first and the last of its channels.
abbrev pub earfcn_table : List (ℕ × ℕ × ℕ)
earfcn_table =
    (1, 0, 599)
    ∷ (2, 600, 1199)
    ∷ (3, 1200, 1949)
    ∷ (4, 1950, 2399)
    ∷ (5, 2400, 2649)
    ∷ (7, 2750, 3449)
    ∷ (8, 3450, 3799)
    ∷ (12, 5010, 5179)
    ∷ (13, 5180, 5279)
    ∷ (14, 5280, 5379)
    ∷ (17, 5730, 5849)
    ∷ (20, 6150, 6449)
    ∷ (25, 8040, 8689)
    ∷ (26, 8690, 9039)
    ∷ (28, 9210, 9659)
    ∷ (29, 9660, 9769)
    ∷ (30, 9770, 9869)
    ∷ (66, 66436, 67335)
    ∷ (71, 68586, 68935)
    ∷ []

abbrev pub band_in : List (ℕ × ℕ × ℕ) → ℕ → Option ℕ
band_in [] earfcn = none
band_in ((band, low, high) ∷ table) earfcn =
    if leb low earfcn && leb earfcn high then some band else band_in table earfcn

unfoldable pub earfcn_to_band : ℕ → Option ℕ
earfcn_to_band earfcn = band_in earfcn_table earfcn

abbrev pub History : Type 0
History = List (ℕ × BandHistoryEntry)

-- `or_insert_with`
abbrev pub entry_or_new : ℕ → BandObservation → Option BandHistoryEntry → BandHistoryEntry
entry_or_new band obs none = record {
  band = band;
  best_rsrp = obs.rsrp;
  latest_rsrp = obs.rsrp;
  observation_count = 0;
  last_seen = obs.recorded_at;
  recent = [];
}
entry_or_new band obs (some e) = e

abbrev pub add_observation : BandObservation → BandHistoryEntry → BandHistoryEntry
add_observation obs e = record e {
  latest_rsrp = obs.rsrp;
  best_rsrp = if ltb e.best_rsrp obs.rsrp then obs.rsrp else e.best_rsrp;
  observation_count = e.observation_count + 1;
  last_seen = obs.recorded_at;
  recent = push_bounded max_band_observations e.recent obs;
}

unfoldable pub observe : History → ℕ → BandObservation → History
observe history band obs =
    insert band (add_observation obs (entry_or_new band obs (lookup band history))) history

abbrev pub observe_serving : History → ℕ → Option ℕ → Option ℕ → Option ℕ → History
observe_serving history now (some band) (some rsrp) (some pci) =
    observe history band (record { rsrp = rsrp; pci = pci; recorded_at = now; serving = true })
observe_serving history now (some band) (some rsrp) none = history
observe_serving history now (some band) none pci = history
observe_serving history now none rsrp pci = history

abbrev pub observe_neighbor : History → ℕ → ℕ → Option ℕ → Option ℕ → History
observe_neighbor history now pci (some band) (some rsrp) =
    observe history band (record { rsrp = rsrp; pci = pci; recorded_at = now; serving = false })
observe_neighbor history now pci (some band) none = history
observe_neighbor history now pci none rsrp = history

abbrev pub observe_neighbors : History → ℕ → List NeighborCell → History
observe_neighbors history now [] = history
observe_neighbors history now (n ∷ ns) =
    observe_neighbors (observe_neighbor history now n.pci (earfcn_to_band n.earfcn) n.rsrp) now ns

unfoldable pub update_band_history : History → Signal → History
unfolding observe
update_band_history history s =
    observe_neighbors (observe_serving history s.recorded_at s.freq_band s.rsrp s.pci) s.recorded_at
      s.neighbors

-- A run of the poller.
unfoldable pub update_all : History → List Signal → History
unfolding update_band_history
update_all history [] = history
update_all history (s ∷ ss) = update_all (update_band_history history s) ss
