-- ===== src/Mcp/Buffer.antt =====
-- mcp/src/websocket.rs: the client's copy of a session's output. The numbers are `u64` and wrap. The
-- text of a notice that the client makes itself is kept as what it is formatted from.
use sctl.Prelude.{
  ℕ, ◌-◌, Bool, false, ◌&&◌, List, [], ◌∷◌, Option, none, some, String, ltb, if◌then◌else◌, filter,
}
use sctl.Prelude.Ring.{push_bounded}
use sctl.Sessions.Buffer.{add_u64}

pub data SessionStatus : Type 0 where
  running exited : SessionStatus

pub data Payload : Type 0 where
  output : String → Payload
  exit_notice : Option ℕ → Payload
  gap_notice : String → ℕ → Payload

-- `payload` is the source's field `data`, a word that is reserved here.
pub record OutputEntry : Type 0 where
  pub seq : ℕ
  pub stream : String
  pub payload : Payload
  pub timestamp_ms : ℕ

abbrev pub max_buffer_entries : ℕ
max_buffer_entries = 5000

-- The notifiers, which only wake readers, are left out.
pub record SessionBuffer : Type 0 where
  pub entries : List OutputEntry
  pub status : SessionStatus
  pub exit_code : Option ℕ
  pub last_seq : ℕ
  pub is_pty : Bool
  pub dropped_count : ℕ
  pub attached : Bool

unfoldable pub new : SessionBuffer
new = record {
  entries = [];
  status = running;
  exit_code = none;
  last_seq = 0;
  is_pty = false;
  dropped_count = 0;
  attached = false;
}

unfoldable pub push : SessionBuffer → OutputEntry → SessionBuffer
push b e = record b {
  dropped_count =
      if ltb (add_u64 b.last_seq 1) e.seq && ltb 0 b.last_seq
      then add_u64 b.dropped_count (e.seq - b.last_seq - 1)
      else b.dropped_count;
  last_seq = if ltb b.last_seq e.seq then e.seq else b.last_seq;
  entries = push_bounded max_buffer_entries b.entries e;
}

unfoldable pub push_each : SessionBuffer → List OutputEntry → SessionBuffer
unfolding push
push_each b [] = b
push_each b (e ∷ es) = push_each (push b e) es

-- What a reader gets that has read up to `since`.
unfoldable pub entries_since : SessionBuffer → ℕ → List OutputEntry
entries_since b since = filter (λ (e : OutputEntry). ltb since e.seq) b.entries

pub record ReadResult : Type 0 where
  pub entries : List OutputEntry
  pub status : SessionStatus
  pub exit_code : Option ℕ
  pub dropped_count : ℕ

unfoldable pub result_of : SessionBuffer → ℕ → ReadResult
unfolding entries_since
result_of b since = record {
  entries = entries_since b since;
  status = b.status;
  exit_code = b.exit_code;
  dropped_count = b.dropped_count;
}

-- The first look of `read_output`: `none` means that it waits for more. The second look, after the
-- wait, gives `result_of`.
abbrev ready : SessionBuffer → ℕ → List OutputEntry → SessionStatus → Option ReadResult
ready b since (e ∷ es) status = some (result_of b since)
ready b since [] exited = some (result_of b since)
ready b since [] running = none

unfoldable pub read_first : SessionBuffer → ℕ → Option ReadResult
unfolding result_of
read_first b since = ready b since (entries_since b since) b.status
