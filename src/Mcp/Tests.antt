-- ===== src/Mcp/Tests.antt =====
-- mcp/src/websocket.rs: the client's buffers on examples.
use sctl.Prelude.{ℕ, ◌+◌, ◌≡◌, refl, [], ◌∷◌, none, some, arith, string_eq}
use sctl.Prelude.Map.{lookup}
use sctl.Sessions.Entry.{stdout}
use sctl.Sessions.Buffer.History.{Pushed, numbered}
use sctl.Tunnel.Stream.{batch_output_entries, batch_from, fits, same_stream}
use sctl.Tunnel.Batches.{batch_output_entries-Divided}
use sctl.Mcp.Buffer.{
  gap_notice, OutputEntry, output, SessionBuffer, new, push, push_each, entries_since, read_first,
}
use sctl.Mcp.Dispatch.{stream, session_exited, Connection, dispatch_all, attach, gap_session}
use sctl.Mcp.Counting.{push_each-batched}
use sctl.Mcp.Bounds.{AllBounded, dispatch_all-AllBounded}
use sctl.Mcp.Attaching.{attach-twice}

abbrev entry : ℕ → OutputEntry
entry n = record { seq = n; stream = "stdout"; payload = output "x"; timestamp_ms = 0 }

abbrev buffer : SessionBuffer
buffer = record (new) { entries = entry 1 ∷ entry 2 ∷ []; last_seq = 2 }

-- The tests of the source.
no_gap : (push_each new (entry 1 ∷ entry 2 ∷ entry 3 ∷ [])).dropped_count ≡ 0
unfolding push_each push new
no_gap = refl

gap_of_three : (push_each new (entry 1 ∷ entry 5 ∷ [])).dropped_count ≡ 3
unfolding push_each push new
gap_of_three = refl

no_gap_at_first : (push new (entry 100)).dropped_count ≡ 0
unfolding push new
no_gap_at_first = refl

abbrev pushed : Pushed
pushed = record { stream = stdout; payload = "x"; now = 5 }

-- Two entries that come in one message count as one that was dropped.
push_each-batched_example : (push_each buffer (entry 4 ∷ [])).dropped_count + 1 ≡ 2
unfolding batch_output_entries batch_from fits same_stream new
push_each-batched_example =
    push_each-batched "s" buffer (pushed ∷ pushed ∷ [])
      (batch_output_entries "s" (numbered 3 (pushed ∷ pushed ∷ []))) (entry 4 ∷ []) (omega arith)
      (batch_output_entries-Divided "s" (numbered 3 (pushed ∷ pushed ∷ []))) refl (omega arith)
      (omega arith)

abbrev told : SessionBuffer
told = gap_session "backpressure" buffer

abbrev notice : OutputEntry
notice = record {
  seq = 3;
  stream = "system";
  payload = gap_notice "backpressure" 2;
  timestamp_ms = 0;
}

attach-twice_example :
    entries_since (attach buffer.entries none none none buffer) 0
    ≡ entry 1 ∷ entry 2 ∷ entry 1 ∷ entry 2 ∷ []
attach-twice_example =
    attach-twice buffer 0 none none none (omega arith, (omega arith, tt)) (omega arith)

abbrev connection : Connection
connection = record {
  sessions = [];
  start_result = none;
  list_result = none;
  ai_status_result = none;
  ai_working_sessions = [];
}

dispatch_all-AllBounded_example :
    AllBounded
      (dispatch_all (stream (some ("s", entry 1)) ∷ session_exited "s" none ∷ []) connection)
unfolding lookup
dispatch_all-AllBounded_example =
    dispatch_all-AllBounded (stream (some ("s", entry 1)) ∷ session_exited "s" none ∷ []) connection
      (λ sid b e. absurd (ground (arith, e)))

-- A reader waits while a running session has nothing new.
waits : read_first buffer 2 ≡ none
unfolding read_first entries_since new
waits = refl
