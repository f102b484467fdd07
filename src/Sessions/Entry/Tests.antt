-- ===== src/Sessions/Entry/Tests.antt =====
-- server/src/sessions/journal.rs: an entry that goes to the journal and back.
use sctl.Prelude.{◌≡◌, refl}
use sctl.Sessions.Entry.{
  stdout, stderr, system, OutputEntry, as_str, from_output_entry, to_output_entry, char_stream,
}

abbrev line : OutputEntry
line = record { seq = 7; stream = stderr; payload = "no such file"; timestamp_ms = 1000 }

stream_names : (as_str stdout ≡ "stdout") × (as_str stderr ≡ "stderr") × (as_str system ≡ "system")
unfolding as_str
stream_names = (refl, refl, refl)

-- An unknown letter is read as the system's stream.
unknown_letter : (to_output_entry (record (from_output_entry line) { t = b'?' })).stream ≡ system
unfolding to_output_entry from_output_entry char_stream
unknown_letter = refl
