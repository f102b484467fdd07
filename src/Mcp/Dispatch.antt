-- ===== src/Mcp/Dispatch.antt =====
-- mcp/src/websocket.rs: what a message of the server does to the client's state. A message has the
-- fields that `dispatch_message` reads of it, a missing text being "" or "unknown" as in the source.
use sctl.Prelude.{
  ℕ, Bool, true, false, List, [], ◌∷◌, Option, none, some, String, if◌then◌else◌, str_eq, string_eq,
  filter, not,
}
use sctl.Prelude.Map.{lookup, insert}
use sctl.Sessions.Buffer.{add_u64}
use sctl.Mcp.Buffer.{
  running, exited, Payload, exit_notice, gap_notice, OutputEntry, SessionBuffer, push, push_each,
}

pub data ServerMsg : Type 0 where
  -- Session output, if `parse_output_entry` reads it.
  stream : Option (String × OutputEntry) → ServerMsg
  session_exited : String → Option ℕ → ServerMsg
  session_started session_listed : String → ServerMsg
  -- The entries that could be read, the status, the exit code and the `pty` flag.
  session_attached :
      String → Option (List OutputEntry) → Option String → Option ℕ → Option Bool → ServerMsg
  session_closed : String → ServerMsg
  error : String → Option String → ServerMsg
  ai_status_ack ai_status_changed : String → Bool → ServerMsg
  session_gap : String → String → ServerMsg
  -- Acknowledgements, broadcasts of other clients and unknown messages.
  no_action : ServerMsg

-- `start_result` and the others are the last response of each kind.
pub record Connection : Type 0 where
  pub sessions : List (String × SessionBuffer)
  pub start_result : Option ServerMsg
  pub list_result : Option ServerMsg
  pub ai_status_result : Option ServerMsg
  pub ai_working_sessions : List String

abbrev pub update_at :
    (SessionBuffer → SessionBuffer) → String → Option SessionBuffer → Connection → Connection
update_at f sid none c = c
update_at f sid (some b) c = record c { sessions = insert sid (f b) c.sessions }

-- `if let Some(buf) = sessions.get_mut(session_id)`
unfoldable pub with_session : String → (SessionBuffer → SessionBuffer) → Connection → Connection
with_session sid f c = update_at f sid (lookup sid c.sessions) c

abbrev pub system_entry : SessionBuffer → Payload → OutputEntry
system_entry b text = record {
  seq = add_u64 b.last_seq 1;
  stream = "system";
  payload = text;
  timestamp_ms = 0;
}

unfoldable pub exit_session : Option ℕ → SessionBuffer → SessionBuffer
exit_session code b =
    push (record b { status = exited; exit_code = code }) (system_entry b (exit_notice code))

unfoldable pub gap_session : String → SessionBuffer → SessionBuffer
gap_session reason b = push b (system_entry b (gap_notice reason b.last_seq))

abbrev pub with_status : Option String → Option ℕ → SessionBuffer → SessionBuffer
with_status none code b = b
with_status (some status) code b =
    if str_eq status "exited"
    then record b { status = exited; exit_code = code }
    else record b { status = running }

abbrev pub with_pty : Option Bool → SessionBuffer → SessionBuffer
with_pty none b = b
with_pty (some pty) b = record b { is_pty = pty }

unfoldable pub attach :
    List OutputEntry → Option String → Option ℕ → Option Bool → SessionBuffer → SessionBuffer
attach entries status code pty b =
    record (push_each (with_pty pty (with_status status code b)) entries) { attached = true }

abbrev pub is_working : String → List String → Bool
is_working sid [] = false
is_working sid (s ∷ set) = if str_eq s sid then true else is_working sid set

abbrev pub set_working : String → Bool → List String → List String
set_working sid true set = if is_working sid set then set else sid ∷ set
set_working sid false set = filter (λ s. not (str_eq s sid)) set

abbrev pub unless_blank : String → Connection → Connection → Connection
unless_blank sid c c' = if str_eq sid "" then c else c'

abbrev pub failed : String → Option String → Connection → Connection
failed code none c = record c { start_result = some (error code none) }
failed code (some sid) c = with_session sid (λ b. record b { status = exited; exit_code = none }) c

unfoldable pub dispatch_message : ServerMsg → Connection → Connection
unfolding with_session
dispatch_message (stream none) c = c
dispatch_message (stream (some (sid, e))) c = with_session sid (λ b. push b e) c
dispatch_message (session_exited sid code) c =
    unless_blank sid c (with_session sid (exit_session code) c)
dispatch_message (session_started msg) c = record c { start_result = some (session_started msg) }
dispatch_message (session_listed msg) c = record c { list_result = some (session_listed msg) }
dispatch_message (session_attached sid none status code pty) c = c
dispatch_message (session_attached sid (some entries) status code pty) c =
    with_session sid (attach entries status code pty) c
dispatch_message (session_closed sid) c =
    unless_blank sid c (with_session sid (λ b. record b { status = exited }) c)
dispatch_message (error code sid) c =
    if str_eq code "AI_NOT_ALLOWED"
    then record c { ai_status_result = some (error code sid) }
    else failed code sid c
dispatch_message (ai_status_ack sid working) c =
    let c' =
      unless_blank sid c
        (record c { ai_working_sessions = set_working sid working c.ai_working_sessions }) in
    record c' { ai_status_result = some (ai_status_ack sid working) }
dispatch_message (ai_status_changed sid working) c = record c {
  ai_working_sessions = set_working sid working c.ai_working_sessions;
}
dispatch_message (session_gap sid reason) c =
    unless_blank sid c (with_session sid (gap_session reason) c)
dispatch_message no_action c = c

-- The sessions that `reconnect_loop` attaches again, each from its last number.
unfoldable pub reattached : List (String × SessionBuffer) → List (String × ℕ)
reattached [] = []
reattached ((sid, b) ∷ m) = elim b.status [
  | running ↦ (sid, b.last_seq) ∷ reattached m
  | exited ↦ reattached m
]

unfoldable pub dispatch_all : List ServerMsg → Connection → Connection
unfolding dispatch_message
dispatch_all [] c = c
dispatch_all (m ∷ ms) c = dispatch_all ms (dispatch_message m c)
