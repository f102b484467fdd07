-- ===== src/Modem/Tests.antt =====
-- server/src/lte.rs: bands and dialogues on examples.
use mathlib.Core.Option
use sctl.Prelude.{
  nat_eq, ℕ, ◌≡◌, refl, Bool, true, false, List, [], ◌∷◌, Option, none, some, contains, codes,
  if◌then◌else◌,
}
use sctl.Watchdog.Cereg
use sctl.Modem.Bits.{test_bit, set_bit}
use sctl.Modem.Hex.{hex_from, print_hex, value_from, parse_hex}
use sctl.Modem.Bands.{
  mask_of, bands_from, bands_to_hex, decode_bands, parse_band_config, parse_bandpri,
}
use sctl.Modem.Answers.{answer, contains-parse_band_config}
use sctl.Modem.Dialogue.{
  Command, read_bands, write_bands, read_priority, write_priority, read_registration, deregister,
  register, restart_interface, Line, err, timed_out,
}
use sctl.Modem.Change.{
  Applied, Requested, retry_set_bands, verified_set_bands, apply_bands_fast, poll_registration,
  request_change, do_safe_set_bands,
}
use sctl.Modem.Registration.{
  told_to_register, left_told, apply_bands_fast-told_to_register, verified_set_bands-Set, ReadBack,
}
use sctl.Prelude.Map.{lookup, insert}
use sctl.Modem.Polling.{gentle, Poll, rounds, new, poll_mode, poll_mode-constant}
use sctl.Modem.History.{
  Signal, BandHistoryEntry, update_all, update_band_history, observe, earfcn_to_band,
}
use sctl.Modem.Summary.{summary, of_signals, lookup-update_all}
use sctl.Modem.Stranding.{do_safe_set_bands-stranded}

-- The tests of the source.
digits_of_bands : bands_to_hex (2 ∷ 4 ∷ 12 ∷ []) ≡ codes "80A"
unfolding bands_to_hex mask_of set_bit print_hex hex_from
digits_of_bands = refl

bands_of_answer :
    parse_band_config (codes "\n+QCFG: \"band\",0x260,0x1808,0x0\n\nOK\n") ≡ 4 ∷ 12 ∷ 13 ∷ []
unfolding parse_band_config decode_bands bands_from test_bit parse_hex value_from
bands_of_answer = refl

no_bands : parse_band_config (codes "OK\n") ≡ []
unfolding parse_band_config
no_bands = refl

priority_of_answer : parse_bandpri (codes "+QCFG: \"bandpri\",4\n") ≡ some 4
unfolding parse_bandpri
priority_of_answer = refl

contains-parse_band_config_example :
    contains 4 (parse_band_config (answer (bands_to_hex (4 ∷ 200 ∷ [])))) ≡ true
contains-parse_band_config_example = contains-parse_band_config (4 ∷ 200 ∷ []) 4

-- A modem that takes a band write only while it is deregistered, and that finds no network.
record Stubborn : Type 0 where
  is_registered : Bool
  digits : List ℕ

abbrev stubborn : Stubborn → Command → Stubborn × Option (List ℕ)
stubborn m read_bands = (m, some (answer m.digits))
stubborn m (write_bands hex) =
    (record m { digits = if m.is_registered then m.digits else hex }, some (codes "OK"))
stubborn m read_priority = (m, some (codes "+QCFG: \"bandpri\",4"))
stubborn m (write_priority band) = (m, some (codes "OK"))
stubborn m read_registration = (m, some (codes "+CEREG: 0,2"))
stubborn m deregister = (record m { is_registered = false }, some (codes "OK"))
stubborn m register = (record m { is_registered = true }, some (codes "OK"))
stubborn m restart_interface = (m, none)

abbrev start : Line Stubborn
start = record { modem = record { is_registered = true; digits = codes "8" }; sent = [] }

-- The write is retried after the modem has been deregistered.
retried :
    (verified_set_bands stubborn (2 ∷ []) start).1.sent
    ≡ read_bands ∷ write_bands (codes "2") ∷ deregister ∷ read_bands ∷ write_bands (codes "2") ∷ []
unfolding verified_set_bands retry_set_bands parse_band_config decode_bands bands_from test_bit
    parse_hex value_from bands_to_hex mask_of set_bit print_hex hex_from
retried = refl

abbrev requested : Requested
requested = record { old_bands = 4 ∷ []; old_priority = some 4; is_registered = false }

abbrev given_up : Line Stubborn
given_up = (request_change stubborn (2 ∷ []) none 2 start).1

-- The modem ends deregistered.
do_safe_set_bands-stranded_example :
    ((do_safe_set_bands stubborn (2 ∷ []) none 2 start).0 ≡ err timed_out)
    × (told_to_register true (do_safe_set_bands stubborn (2 ∷ []) none 2 start).1.sent ≡ false)
unfolding request_change poll_registration verified_set_bands retry_set_bands parse_band_config
    decode_bands bands_from test_bit parse_hex value_from bands_to_hex mask_of set_bit print_hex
    hex_from parse_bandpri Cereg.parse_cereg Cereg.is_registered
do_safe_set_bands-stranded_example =
    do_safe_set_bands-stranded stubborn (2 ∷ []) none 2 start given_up true requested refl refl

abbrev changed : Applied
changed = record {
  config = record { enabled_bands = 2 ∷ []; priority_band = none };
  old_bands = 4 ∷ [];
  old_priority = some 4;
  did_deregister = true;
}

apply_bands_fast-told_to_register_example :
    told_to_register false (apply_bands_fast stubborn (2 ∷ []) none start).1.sent ≡ true
unfolding apply_bands_fast verified_set_bands retry_set_bands parse_band_config decode_bands
    bands_from test_bit parse_hex value_from bands_to_hex mask_of set_bit print_hex hex_from
    parse_bandpri
apply_bands_fast-told_to_register_example =
    apply_bands_fast-told_to_register stubborn (2 ∷ []) none start false {a = changed} refl

-- The answers to the dialogue are those of the modem above.
verified_set_bands-Set_example :
    let (result, line) = verified_set_bands stubborn (2 ∷ []) start in
    (told_to_register true line.sent ≡ left_told true result) × ReadBack (2 ∷ []) result
verified_set_bands-Set_example = verified_set_bands-Set stubborn (2 ∷ []) start true

-- A poll that takes the tunnel down.
abbrev disruption : Poll
disruption = record {
  data_active = true;
  answered = true;
  pre_connected = true;
  post_connected = false;
  pre_pong = 100;
  post_pong = 12000;
  still_active = true;
}

poll_mode-constant_example :
    poll_mode true (rounds (disruption ∷ disruption ∷ disruption ∷ []) new) ≡ gentle
poll_mode-constant_example = poll_mode-constant (disruption ∷ disruption ∷ disruption ∷ []) true

band_of_channel : earfcn_to_band 2100 ≡ some 4
unfolding earfcn_to_band
band_of_channel = refl

no_band_of_channel : earfcn_to_band 100000 ≡ none
unfolding earfcn_to_band
no_band_of_channel = refl

abbrev heard : Signal
heard = record {
  freq_band = some 4;
  rsrp = some 90;
  pci = some 7;
  neighbors = record { earfcn = 2100; pci = 8; rsrp = some 80 } ∷ [];
  recorded_at = 5;
}

lookup-update_all_example :
    lookup 4 (update_all [] (heard ∷ heard ∷ [])) ≡ summary 4 (of_signals 4 (heard ∷ heard ∷ []))
lookup-update_all_example = lookup-update_all (heard ∷ heard ∷ []) 4

-- Two signals with two observations each.
four_observations :
    Option.map BandHistoryEntry.observation_count (lookup 4 (update_all [] (heard ∷ heard ∷ [])))
    ≡ some 4
unfolding update_all update_band_history observe earfcn_to_band lookup insert
four_observations = refl
