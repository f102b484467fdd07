-- ===== src/Sessions/Buffer.antt =====
-- server/src/sessions/buffer.rs: the ring of a session's sequenced output. The clock's reading is
-- an argument; `push` returns beside the buffer what it hands to the journal channel.
-- Waking the waiters (`Notify`) has no state that a reader sees and is left out.
pub mod History
pub mod Reading
mod Tests
use sctl.Prelude.{
  ℕ, ◌+◌, ◌-◌, ◌%◌, ◌^◌, min, Bool, true, false, List, [], ◌∷◌, ◌++◌, Option, none, some, String,
  ltb, if◌then◌else◌, front, back, filter,
}
use sctl.Prelude.Ring.{push_bounded}
use sctl.Sessions.Entry.{OutputStream, OutputEntry, JournalEntry, from_output_entry}

-- `journal` says whether a journal channel is attached.
pub record OutputBuffer : Type 0 where
  pub entries : List OutputEntry
  pub next_seq : ℕ
  pub max_entries : ℕ
  pub journal : Bool

pub new : ℕ → OutputBuffer
new max_entries = record { entries = []; next_seq = 1; max_entries = max_entries; journal = false }

pub set_journal : OutputBuffer → OutputBuffer
set_journal b = record b { journal = true }

-- `u64` addition, and its saturating form.
abbrev pub add_u64 : ℕ → ℕ → ℕ
add_u64 a b = (a + b) % 2 ^ 64

abbrev pub saturating_add_u64 : ℕ → ℕ → ℕ
saturating_add_u64 a b = min (a + b) (2 ^ 64 - 1)

pub push : OutputBuffer → OutputStream → String → ℕ → OutputBuffer × Option JournalEntry
push b stream payload now =
    let entry : OutputEntry = record {
      seq = b.next_seq;
      stream = stream;
      payload = payload;
      timestamp_ms = now;
    } in
    (
      record b {
        next_seq = add_u64 b.next_seq 1;
        entries = push_bounded b.max_entries b.entries entry;
      },
      if b.journal then some (from_output_entry entry) else none,
    )

oldest_available : OutputBuffer → ℕ
oldest_available b = elim (front b.entries) [ none ↦ b.next_seq | some e ↦ e.seq ]

pub read_since : OutputBuffer → ℕ → List OutputEntry × ℕ
unfolding oldest_available
read_since b since =
    let oldest = oldest_available b in
    (
      filter (λ e. ltb since e.seq) b.entries,
      if ltb (saturating_add_u64 since 1) oldest then oldest - since - 1 else 0,
    )

pub has_entries_since : OutputBuffer → ℕ → Bool
has_entries_since b since = elim (back b.entries) [ none ↦ false | some e ↦ ltb since e.seq ]
