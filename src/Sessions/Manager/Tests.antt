-- ===== src/Sessions/Manager/Tests.antt =====
-- server/src/sessions: the theorems on the pool of sessions and its journals on examples, and runs
-- of its operations.
use sctl.Prelude.{
  if◌then◌else◌, str_eq, ◌-◌, ◌^◌, ◌≡◌, refl, true, false, inl, inr, List, [], ◌∷◌, Option, none,
  some, String, string_eq,
}
use sctl.Prelude.Map.{lookup, insert, remove}
use sctl.Sessions.Entry.{
  from_output_entry, stream_char, OutputEntry, JournalEntry, to_output_entry, char_stream, stdout,
  system,
}
use sctl.Sessions.Buffer.{OutputBuffer}
use sctl.Sessions.Session.{spawned, running, kill_group, kill, graceful_kill, ManagedSession}
use sctl.Sessions.Journal.Written.{recover-written}
use sctl.Sessions.Journal.{
  SessionMetadata, ArchivedSession, recover_single_journal, parse_exit_code, parse_i32,
  recover_sessions, read_lines, code_after,
}
use sctl.Sessions.Manager.{
  SessionEntry, SessionManager, NewSession, Start, terminal, as_str, empty, new_buffer, new_entry,
  create_session_inner, create_session, create_job, job_idle_timeout_secs, limit_reached,
  stdin_closed, send_to_session, kill_session, attach, detach, update, detach_all,
}
use sctl.Sessions.Manager.Listing.{list_sessions, list_item, get_status, is_persistent}
use sctl.Sessions.Manager.Sweep.{sweep}
use sctl.Sessions.Manager.Steps.{creates, ai_works, sweeps, run}
use sctl.Sessions.Manager.Sweeping.{sweep-lookup}
use sctl.Sessions.Manager.Recovering.{recovered, sweep-recovered}
use sctl.Sessions.Manager.Invariant.{Sound}
use sctl.Sessions.Manager.Always.{run-Sound}

abbrev buffer : OutputBuffer
buffer = record { entries = []; next_seq = 1; max_entries = 10; journal = false }

abbrev shell : ManagedSession
shell = record {
  pid = 7;
  pgid = 7;
  buffer = buffer;
  status = running;
  exit_code = none;
  has_pty = false;
}

abbrev entry : SessionEntry
entry = record {
  session = shell;
  kind = terminal;
  persistent = true;
  last_activity = 0;
  attached_count = 0;
  idle_timeout = 600;
  name = none;
  created_at = 5;
  user_allows_ai = true;
  ai_is_working = true;
  ai_activity = some "write";
  ai_status_message = none;
  ai_last_activity = some 0;
}

abbrev mgr : SessionManager
mgr = record { sessions = ("a", entry) ∷ []; max_sessions = 1; buffer_size = 10; journals = false }

abbrev metadata : SessionMetadata
metadata = record {
  v = 1;
  pid = 7;
  shell = "sh";
  working_dir = "/";
  persistent = true;
  pty = true;
  created = 5;
}

abbrev printed : List OutputEntry
printed =
    record { seq = 1; stream = stdout; payload = "hi"; timestamp_ms = 9 }
    ∷ record {
      seq = 2;
      stream = system;
      payload = "Process exited with code -1";
      timestamp_ms = 10;
    }
    ∷ []

abbrev stored : ArchivedSession
stored = record { session_id = "a"; metadata = metadata; entries = printed; exit_code = none }

abbrev start : Start
start = record { session_id = "a"; process = inr 7; journal_ok = true; now = 0; epoch = 5 }

abbrev request : NewSession
request = record {
  persistent = true;
  use_pty = true;
  idle_timeout = 0;
  name = none;
  kind = terminal;
}

run-Sound_example : Sound (
    run
      (creates request start
        ∷ ai_works "a" true none none 3
        ∷ sweeps 99000 (λ _. false) (λ _. true)
        ∷ [])
      (empty 1 10 false))
run-Sound_example = run-Sound 1 10 false (
    creates request start
    ∷ ai_works "a" true none none 3
    ∷ sweeps 99000 (λ _. false) (λ _. true)
    ∷ [])

sweep-lookup_example :
    lookup "a" (sweep mgr 600001 (λ _. false) (λ _. true)).manager.sessions ≡ none
unfolding lookup
sweep-lookup_example = sweep-lookup mgr 600001 (λ _. false) (λ _. true) "a" (refl, tt)

sweep-recovered_example :
    (sweep (recovered 4 10 true (stored ∷ []) 0 5) 30000 (λ _. false) (λ _. true)).manager.sessions
    ≡ []
sweep-recovered_example = sweep-recovered 4 10 true (stored ∷ []) 0 5 30000 (λ _. true)

-- A toy format: an entry is printed as its text.
abbrev print_text : JournalEntry → String
print_text je = je.d

abbrev read_printed : String → Option JournalEntry
read_printed text =
    if str_eq text "hi"
    then some (record { s = 1; t = b'o'; d = text; ts = 9 })
    else some (record { s = 2; t = b'x'; d = text; ts = 10 })

recover-written_example :
    recover_single_journal read_printed
      (λ _. some metadata)
      "a"
      ("metadata" ∷ "hi" ∷ "Process exited with code -1" ∷ [])
    ≡ some (record {
      session_id = "a";
      metadata = metadata;
      entries = printed;
      exit_code = some (2 ^ 32 - 1);
    })
unfolding from_output_entry stream_char parse_exit_code parse_i32
recover-written_example =
    recover-written read_printed (λ _. some metadata) print_text (λ _. "metadata") "a" metadata
      printed refl ((refl, refl), ((refl, refl), tt))

-- A toy format: an entry is printed as its text, and a text is read as an entry of the journal.
abbrev read_text : String → Option JournalEntry
read_text text = some (record { s = 1; t = b'x'; d = text; ts = 9 })

exit_code_read : parse_exit_code "Process exited with code 137" ≡ some 137
unfolding parse_exit_code parse_i32
exit_code_read = refl

exit_code_negative : parse_exit_code "Process exited with code -1" ≡ some (2 ^ 32 - 1)
unfolding parse_exit_code parse_i32
exit_code_negative = refl

exit_code_other : parse_exit_code "Process wait error: gone" ≡ none
unfolding parse_exit_code parse_i32
exit_code_other = refl

-- An unreadable journal is skipped, and so is an empty line.
journals_read :
    recover_sessions read_text
      (λ _. some metadata)
      (("a", []) ∷ ("b", "m" ∷ "" ∷ "Process exited with code 3" ∷ []) ∷ [])
    ≡ record {
      session_id = "b";
      metadata = metadata;
      entries =
          record {
            seq = 1;
            stream = system;
            payload = "Process exited with code 3";
            timestamp_ms = 9;
          }
          ∷ [];
      exit_code = some 3;
    }
      ∷ []
unfolding recover_sessions recover_single_journal read_lines code_after parse_exit_code parse_i32
    to_output_entry char_stream
journals_read = refl

full_pool : (create_session mgr true start).1 ≡ inl (limit_reached 1)
unfolding create_session create_session_inner
full_pool = refl

job_created :
    list_sessions (create_job (empty 1 10 true) none job_idle_timeout_secs start).0.sessions 60001
    ≡ record {
      session_id = "a";
      pid = 7;
      persistent = true;
      pty = false;
      kind = "job";
      attached = true;
      status = "running";
      exit_code = none;
      idle = false;
      idle_timeout = 600;
      name = none;
      created_at = 5;
      user_allows_ai = true;
      ai_is_working = false;
      ai_activity = none;
      ai_status_message = none;
    }
      ∷ []
unfolding create_job create_session_inner new_entry new_buffer list_sessions list_item insert
    spawned as_str empty
job_created = refl

stdin_gone : send_to_session mgr "a" false ≡ inl stdin_closed
unfolding send_to_session lookup
stdin_gone = refl

killed :
    kill_session mgr "a" false
    ≡ (record mgr { sessions = [] }, (true, kill_group 7 15 ∷ kill_group 7 9 ∷ []))
unfolding kill_session graceful_kill lookup remove
killed = refl

not_killed : kill_session mgr "b" true ≡ (mgr, (false, []))
unfolding kill_session lookup
not_killed = refl

killed_at_once : kill shell ≡ kill_group 7 9 ∷ []
unfolding kill
killed_at_once = refl

status_read : get_status mgr "a" ≡ some (running, none)
unfolding get_status lookup
status_read = refl

persists : is_persistent mgr "a" ≡ true
unfolding is_persistent lookup
persists = refl

-- A full turn of one attachment and two detachments stops at 0.
detached_twice : detach_all (attach mgr "a" 1).0 ("a" ∷ "a" ∷ []) 0 ≡ mgr
unfolding detach_all detach attach update lookup insert
detached_twice = refl
