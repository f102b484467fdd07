-- ===== src/Sessions/Entry.antt =====
-- Output entries (server/src/sessions/buffer.rs) and their form in the journal
-- (server/src/sessions/journal.rs).
mod Tests
use sctl.Prelude.{ℕ, ◌≡◌, refl, String, ◌==◌, if◌then◌else◌}

pub data OutputStream : Type 0 where
  stdout stderr system : OutputStream

pub as_str : OutputStream → String
as_str stdout = "stdout"
as_str stderr = "stderr"
as_str system = "system"

-- `payload` is the source's field `data`, a word that is reserved here.
pub record OutputEntry : Type 0 where
  pub seq : ℕ
  pub stream : OutputStream
  pub payload : String
  pub timestamp_ms : ℕ

-- `t` is a character, as its code.
pub record JournalEntry : Type 0 where
  pub s : ℕ
  pub t : ℕ
  pub d : String
  pub ts : ℕ

unfoldable pub stream_char : OutputStream → ℕ
stream_char stdout = b'o'
stream_char stderr = b'e'
stream_char system = b'x'

unfoldable pub char_stream : ℕ → OutputStream
char_stream t = if t == b'o' then stdout else if t == b'e' then stderr else system

unfoldable pub from_output_entry : OutputEntry → JournalEntry
unfolding stream_char
from_output_entry e = record {
  s = e.seq;
  t = stream_char e.stream;
  d = e.payload;
  ts = e.timestamp_ms;
}

unfoldable pub to_output_entry : JournalEntry → OutputEntry
unfolding char_stream
to_output_entry j = record {
  seq = j.s;
  stream = char_stream j.t;
  payload = j.d;
  timestamp_ms = j.ts;
}

char_stream-stream_char : (s : OutputStream) → char_stream (stream_char s) ≡ s
unfolding char_stream stream_char
char_stream-stream_char stdout = refl
char_stream-stream_char stderr = refl
char_stream-stream_char system = refl

-- An entry that went to the journal comes back the same.
pub to_output_entry-from_output_entry :
    (e : OutputEntry) → to_output_entry (from_output_entry e) ≡ e
unfolding to_output_entry from_output_entry
to_output_entry-from_output_entry e = λ i. record {
  seq = e.seq;
  stream = char_stream-stream_char e.stream i;
  payload = e.payload;
  timestamp_ms = e.timestamp_ms;
}
