-- ===== src/Tunnel/Stream.antt =====
-- server/src/tunnel/client.rs: the output of a session on its way to the relay. The texts are lists
-- of codes; a message stands for its JSON text. The counters of back pressure are left out, and the
-- queue to the relay takes every message.
use sctl.Prelude.{
  ℕ, ◌+◌, ◌*◌, Bool, true, false, ◌&&◌, List, [], ◌∷◌, ◌++◌, Option, none, some, String, codes, ltb,
  leb, if◌then◌else◌, back,
}
use sctl.Sessions.Entry.{OutputStream, stdout, stderr, system, OutputEntry}
use sctl.Sessions.Buffer.{OutputBuffer, read_since, has_entries_since}

abbrev pub max_batch_entries : ℕ
max_batch_entries = 32

abbrev pub max_batch_bytes : ℕ
max_batch_bytes = 8 * 1024

-- The length in UTF-8: `str::len`.
abbrev pub char_bytes : ℕ → ℕ
char_bytes c = if ltb c 0x80 then 1 else if ltb c 0x800 then 2 else if ltb c 0x10000 then 3 else 4

abbrev pub bytes : List ℕ → ℕ
bytes [] = 0
bytes (c ∷ s) = char_bytes c + bytes s

pub record Message : Type 0 where
  pub stream : OutputStream
  pub session_id : String
  pub text : List ℕ
  pub seq : ℕ
  pub timestamp_ms : ℕ

-- The variables of the loop, with the prefix `current_`.
pub record Current : Type 0 where
  pub stream : Option OutputStream
  pub text : List ℕ
  pub seq : ℕ
  pub timestamp_ms : ℕ
  pub count : ℕ

unfoldable pub same_stream : Option OutputStream → OutputStream → Bool
same_stream (some stdout) stdout = true
same_stream (some stderr) stderr = true
same_stream (some system) system = true
same_stream _ _ = false

-- What `flush_current` writes, and what it leaves.
abbrev pub flushed : String → Option OutputStream → Current → List Message
flushed id none c = []
flushed id (some stream) c =
    record {
      stream = stream;
      session_id = id;
      text = c.text;
      seq = c.seq;
      timestamp_ms = c.timestamp_ms;
    }
    ∷ []

abbrev pub emptied : Option OutputStream → Current → Current
emptied none c = c
emptied (some stream) c = record c { stream = none; text = []; count = 0 }

unfoldable pub fits : Current → OutputEntry → Bool
unfolding same_stream
fits c e =
    same_stream c.stream e.stream
    && leb (bytes c.text + bytes (codes e.payload)) max_batch_bytes
    && ltb c.count max_batch_entries

abbrev pub add_entry : OutputEntry → Current → Current
add_entry e c = record c {
  text = c.text ++ codes e.payload;
  seq = e.seq;
  timestamp_ms = e.timestamp_ms;
  count = c.count + 1;
}

unfoldable pub batch_from : String → Current → List OutputEntry → List Message
batch_from id c [] = flushed id c.stream c
batch_from id c (e ∷ es) =
    let start = record (emptied c.stream c) { stream = some e.stream } in
    (if fits c e then [] else flushed id c.stream c)
    ++ batch_from id (add_entry e (if fits c e then c else start)) es

abbrev pub nothing_yet : Current
nothing_yet = record { stream = none; text = []; seq = 0; timestamp_ms = 0; count = 0 }

unfoldable pub batch_output_entries : String → List OutputEntry → List Message
unfolding batch_from fits
batch_output_entries id es = batch_from id nothing_yet es

-- The cursor moves to the last entry.
abbrev pub moved : ℕ → Option OutputEntry → ℕ
moved cursor none = cursor
moved cursor (some e) = e.seq

-- A round of `tunnel_subscriber_task` at its cursor: the messages, and the new cursor.
unfoldable pub subscriber_round : String → OutputBuffer → ℕ → List Message × ℕ
subscriber_round id b cursor =
    let entries = if has_entries_since b cursor then (read_since b cursor).0 else [] in
    (batch_output_entries id entries, moved cursor (back entries))
