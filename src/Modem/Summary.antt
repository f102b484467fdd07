-- ===== src/Modem/Summary.antt =====
-- server/src/lte.rs: the history of a band against the list of all its observations.
use sctl.Prelude.{
  ℕ, ◌-◌, ◌≡◌, refl, ap, subst, ◌∙◌, true, false, List, [], ◌∷◌, ◌++◌, Option, none, some, ◌==◌,
  if◌then◌else◌, nat_eq, max, arith, length, drop, length-append, append-nil, append_assoc,
  Bool-cases, inl, inr,
}
use sctl.Prelude.Map.{lookup, lookup-insert, lookup-insert_self}
use sctl.Prelude.Ring.{push_bounded-drop}
use sctl.Modem.History.{
  NeighborCell, Signal, BandObservation, BandHistoryEntry, max_band_observations, earfcn_to_band,
  History, entry_or_new, add_observation, observe, observe_serving, observe_neighbor,
  observe_neighbors, update_band_history, update_all,
}

-- What a signal says of the band `b`: the serving cell first, then the neighbours in order.
abbrev pub said : ℕ → ℕ → BandObservation → List BandObservation
said b band obs = if band == b then obs ∷ [] else []

abbrev pub of_serving : ℕ → ℕ → Option ℕ → Option ℕ → Option ℕ → List BandObservation
of_serving b now (some band) (some rsrp) (some pci) =
    said b band (record { rsrp = rsrp; pci = pci; recorded_at = now; serving = true })
of_serving b now (some band) (some rsrp) none = []
of_serving b now (some band) none pci = []
of_serving b now none rsrp pci = []

abbrev pub of_neighbor : ℕ → ℕ → ℕ → Option ℕ → Option ℕ → List BandObservation
of_neighbor b now pci (some band) (some rsrp) =
    said b band (record { rsrp = rsrp; pci = pci; recorded_at = now; serving = false })
of_neighbor b now pci (some band) none = []
of_neighbor b now pci none rsrp = []

abbrev pub of_neighbors : ℕ → ℕ → List NeighborCell → List BandObservation
of_neighbors b now [] = []
of_neighbors b now (n ∷ ns) =
    of_neighbor b now n.pci (earfcn_to_band n.earfcn) n.rsrp ++ of_neighbors b now ns

abbrev pub of_signals : ℕ → List Signal → List BandObservation
of_signals b [] = []
of_signals b (s ∷ ss) =
    (of_serving b s.recorded_at s.freq_band s.rsrp s.pci
      ++ of_neighbors b s.recorded_at s.neighbors)
    ++ of_signals b ss

-- The entry of a band with the observations `obs ∷ more`.
abbrev pub best_of : ℕ → List BandObservation → ℕ
best_of r [] = r
best_of r (o ∷ os) = best_of (max r o.rsrp) os

abbrev pub latest : BandObservation → List BandObservation → BandObservation
latest o [] = o
latest o (p ∷ os) = latest p os

abbrev pub summary : ℕ → List BandObservation → Option BandHistoryEntry
summary b [] = none
summary b (o ∷ os) = some (record {
  band = b;
  best_rsrp = best_of o.rsrp os;
  latest_rsrp = (latest o os).rsrp;
  observation_count = length (o ∷ os);
  last_seen = (latest o os).recorded_at;
  recent = drop (length (o ∷ os) - max_band_observations) (o ∷ os);
})

best_of-append :
    (r : ℕ) (os : List BandObservation) (o : BandObservation)
    → best_of r (os ++ (o ∷ [])) ≡ max (best_of r os) o.rsrp
best_of-append r [] o = refl
best_of-append r (p ∷ os) o = best_of-append (max r p.rsrp) os o

latest-append :
    (p : BandObservation) (os : List BandObservation) (o : BandObservation)
    → latest p (os ++ (o ∷ [])) ≡ o
latest-append p [] o = refl
latest-append p (q ∷ os) o = latest-append q os o

-- One more observation of a band.
add-summary :
    (b : ℕ) (os : List BandObservation) (o : BandObservation)
    → some (add_observation o (entry_or_new b o (summary b os))) ≡ summary b (os ++ (o ∷ []))
add-summary b [] o = ground arith
add-summary b (p ∷ os) o = ground (
  arith,
  best_of-append p.rsrp os o,
  latest-append p os o,
  length-append os (o ∷ []),
  push_bounded-drop max_band_observations (p ∷ os)
      (drop (length (p ∷ os) - max_band_observations) (p ∷ os)) o,
)

-- The history holds the summary of the observations `f` of every band.
abbrev pub Sums : (ℕ → List BandObservation) → History → Type 0
Sums f history = (b : ℕ) → lookup b history ≡ summary b (f b)

observed :
    (f : ℕ → List BandObservation) (history : History) (band : ℕ) (o : BandObservation)
    → Sums f history
    → lookup band (observe history band o) ≡ summary band (f band ++ said band band o)
unfolding observe
observed f history band o h =
    lookup-insert_self band (add_observation o (entry_or_new band o (lookup band history))) history
    ∙ ap (λ x. some (add_observation o (entry_or_new band o x))) (h band)
    ∙ add-summary band (f band) o
    ∙ ap (λ os. summary band (f band ++ os)) (ground arith)

observe-Sums :
    (f : ℕ → List BandObservation) (history : History) (band : ℕ) (o : BandObservation)
    → Sums f history
    → Sums (λ b. f b ++ said b band o) (observe history band o)
unfolding observe
observe-Sums f history band o h b = elim (Bool-cases (band == b)) [
  | inl same ↦
      subst (λ c. lookup c (observe history band o) ≡ summary c (f c ++ said c band o))
        ((nat_eq.beq_iff band b).0 same) (observed f history band o h)
  | inr other ↦
      lookup-insert band b (add_observation o (entry_or_new band o (lookup band history))) history
      ∙ rw (other, append-nil) (h b)
]

serving-Sums :
    (f : ℕ → List BandObservation) (history : History) (now : ℕ) (band rsrp pci : Option ℕ)
    → Sums f history
    → Sums (λ b. f b ++ of_serving b now band rsrp pci) (observe_serving history now band rsrp pci)
serving-Sums f history now (some band) (some rsrp) (some pci) h b =
    observe-Sums f history band
      (record { rsrp = rsrp; pci = pci; recorded_at = now; serving = true }) h b
serving-Sums f history now (some band) (some rsrp) none h b = rw append-nil (h b)
serving-Sums f history now (some band) none pci h b = rw append-nil (h b)
serving-Sums f history now none rsrp pci h b = rw append-nil (h b)

neighbor-Sums :
    (f : ℕ → List BandObservation) (history : History) (now pci : ℕ) (band rsrp : Option ℕ)
    → Sums f history
    → Sums
        (λ b. f b ++ of_neighbor b now pci band rsrp)
        (observe_neighbor history now pci band rsrp)
neighbor-Sums f history now pci (some band) (some rsrp) h b =
    observe-Sums f history band
      (record { rsrp = rsrp; pci = pci; recorded_at = now; serving = false }) h b
neighbor-Sums f history now pci (some band) none h b = rw append-nil (h b)
neighbor-Sums f history now pci none rsrp h b = rw append-nil (h b)

neighbors-Sums :
    (f : ℕ → List BandObservation) (history : History) (now : ℕ) (ns : List NeighborCell)
    → Sums f history
    → Sums (λ b. f b ++ of_neighbors b now ns) (observe_neighbors history now ns)
neighbors-Sums f history now [] h b = rw append-nil (h b)
neighbors-Sums f history now (n ∷ ns) h b =
    let band = earfcn_to_band n.earfcn in
    neighbors-Sums (λ c. f c ++ of_neighbor c now n.pci band n.rsrp)
      (observe_neighbor history now n.pci band n.rsrp) now ns
      (neighbor-Sums f history now n.pci band n.rsrp h) b
    ∙ ap (summary b) (append_assoc (f b) _ _)

update_all-Sums :
    (ss : List Signal) (f : ℕ → List BandObservation) (history : History)
    → Sums f history
    → Sums (λ b. f b ++ of_signals b ss) (update_all history ss)
unfolding update_all update_band_history
update_all-Sums [] f history h b = rw append-nil (h b)
update_all-Sums (s ∷ ss) f history h b =
    let served = serving-Sums f history s.recorded_at s.freq_band s.rsrp s.pci h in
    let heard =
      neighbors-Sums (λ c. f c ++ of_serving c s.recorded_at s.freq_band s.rsrp s.pci)
        (observe_serving history s.recorded_at s.freq_band s.rsrp s.pci) s.recorded_at s.neighbors
        served in
    update_all-Sums ss
      (λ c.
        (f c ++ of_serving c s.recorded_at s.freq_band s.rsrp s.pci)
        ++ of_neighbors c s.recorded_at s.neighbors)
      (update_band_history history s) heard b
    ∙ ap (summary b) (simp append_assoc)

-- From an empty history on, whatever signals are read: a band that no signal named has no entry,
-- and the entry of any other has the strongest, the latest and the number of all its observations,
-- and the last 20 of them in order.
pub lookup-update_all :
    (ss : List Signal) (b : ℕ) → lookup b (update_all [] ss) ≡ summary b (of_signals b ss)
unfolding lookup
lookup-update_all ss b = update_all-Sums ss (λ c. []) [] (λ c. refl) b
