-- ===== src/Sessions/Manager.antt =====
-- server/src/sessions/mod.rs: the pool of sessions. Instants and the time of day are milliseconds;
-- what the operating system answers is an argument of the operation.
pub mod Ai
pub mod Listing
pub mod Sweep
pub mod Recover
pub mod Removal
mod Tests
pub mod Always
pub mod Steps
pub mod Invariant
pub mod Recovering
pub mod Trimming
pub mod Sweeping
use sctl.Prelude.{
  ℕ, ◌-◌, ◌⊎◌, inl, inr, Bool, true, false, List, [], ◌∷◌, Option, none, some, String, leb, ltb,
  if◌then◌else◌, length, saturating_add_u32, string_eq,
}
use sctl.Prelude.Map.{lookup, insert, remove, map_option}
use sctl.Sessions.Buffer.{OutputBuffer, new, set_journal}
use sctl.Sessions.Session.{ManagedSession, spawned, Kill, send_signal, kill, graceful_kill}

pub data SessionKind : Type 0 where
  terminal job : SessionKind

unfoldable pub as_str : SessionKind → String
as_str terminal = "terminal"
as_str job = "job"

pub record SessionEntry : Type 0 where
  pub session : ManagedSession
  pub kind : SessionKind
  pub persistent : Bool
  pub last_activity : ℕ
  pub attached_count : ℕ
  pub idle_timeout : ℕ
  pub name : Option String
  pub created_at : ℕ
  pub user_allows_ai : Bool
  pub ai_is_working : Bool
  pub ai_activity : Option String
  pub ai_status_message : Option String
  pub ai_last_activity : Option ℕ

abbrev pub Pool : Type 0
Pool = List (String × SessionEntry)

-- `journals` says whether there is a data directory.
pub record SessionManager : Type 0 where
  pub sessions : Pool
  pub max_sessions : ℕ
  pub buffer_size : ℕ
  pub journals : Bool

pub data SessionError : Type 0 where
  limit_reached : ℕ → SessionError
  spawn_failed not_found : String → SessionError
  stdin_closed ai_not_allowed not_a_pty : SessionError

unfoldable pub empty : ℕ → ℕ → Bool → SessionManager
empty max_sessions buffer_size journals = record {
  sessions = [];
  max_sessions = max_sessions;
  buffer_size = buffer_size;
  journals = journals;
}

abbrev pub with_sessions : SessionManager → Pool → SessionManager
with_sessions mgr m = record mgr { sessions = m }

-- What a caller asks of a new session.
pub record NewSession : Type 0 where
  pub persistent : Bool
  pub use_pty : Bool
  pub idle_timeout : ℕ
  pub name : Option String
  pub kind : SessionKind

-- What a new session gets: its id, the pid or the error of the start, whether its journal could be
-- created, the clock and the time of day.
pub record Start : Type 0 where
  pub session_id : String
  pub process : String ⊎ ℕ
  pub journal_ok : Bool
  pub now : ℕ
  pub epoch : ℕ

unfoldable pub new_buffer : SessionManager → Start → OutputBuffer
new_buffer mgr st =
    let b = new mgr.buffer_size in
    if mgr.journals then (if st.journal_ok then set_journal b else b) else b

unfoldable pub new_entry : SessionManager → NewSession → Start → ℕ → SessionEntry
new_entry mgr req st pid = record {
  session = spawned pid (new_buffer mgr st) req.use_pty;
  kind = req.kind;
  persistent = req.persistent;
  last_activity = st.now;
  attached_count = 1;
  idle_timeout = req.idle_timeout;
  name = req.name;
  created_at = st.epoch;
  user_allows_ai = true;
  ai_is_working = false;
  ai_activity = none;
  ai_status_message = none;
  ai_last_activity = none;
}

-- Once the process has been started, or not.
abbrev pub process_started :
    SessionManager
    → NewSession
    → Start
    → String ⊎ ℕ
    → SessionManager × (SessionError ⊎ (String × ℕ))
process_started mgr req st (inl e) = (mgr, inl (spawn_failed e))
process_started mgr req st (inr pid) = (
  with_sessions mgr (insert st.session_id (new_entry mgr req st pid) mgr.sessions),
  inr (st.session_id, pid),
)

unfoldable pub create_session_inner :
    SessionManager → NewSession → Start → SessionManager × (SessionError ⊎ (String × ℕ))
unfolding new_entry
create_session_inner mgr req st =
    if leb mgr.max_sessions (length mgr.sessions)
    then (mgr, inl (limit_reached mgr.max_sessions))
    else process_started mgr req st st.process

abbrev pub job_idle_timeout_secs : ℕ
job_idle_timeout_secs = 600

unfoldable pub create_session :
    SessionManager → Bool → Start → SessionManager × (SessionError ⊎ (String × ℕ))
unfolding create_session_inner
create_session mgr persistent st =
    create_session_inner mgr
      (record {
        persistent = persistent;
        use_pty = false;
        idle_timeout = 0;
        name = none;
        kind = terminal;
      })
      st

unfoldable pub create_job :
    SessionManager → Option String → ℕ → Start → SessionManager × (SessionError ⊎ (String × ℕ))
unfolding create_session_inner
create_job mgr name idle_timeout st =
    create_session_inner mgr
      (record {
        persistent = true;
        use_pty = false;
        idle_timeout = idle_timeout;
        name = name;
        kind = job;
      })
      st

-- `get_mut`: the entry is changed if it is there.
abbrev pub put_back : String → (SessionEntry → SessionEntry) → Pool → Option SessionEntry → Pool
put_back id f m none = m
put_back id f m (some e) = insert id (f e) m

unfoldable pub update : String → (SessionEntry → SessionEntry) → Pool → Pool
update id f m = put_back id f m (lookup id m)

-- `send` is what the channel to the session answers.
unfoldable pub send_to_session : SessionManager → String → Bool → SessionError ⊎ Unit {0}
send_to_session mgr id accepts = elim (lookup id mgr.sessions) [
  | none ↦ inl (not_found id)
  | some e ↦ if accepts then inr tt else inl stdin_closed
]

unfoldable pub signal_session : SessionManager → String → ℕ → SessionError ⊎ Kill
signal_session mgr id signal = elim (lookup id mgr.sessions) [
  | none ↦ inl (not_found id)
  | some e ↦ inr (send_signal e.session signal)
]

abbrev pub kill_found :
    SessionManager → String → Bool → Option SessionEntry → SessionManager × (Bool × List Kill)
kill_found mgr id in_time none = (mgr, (false, []))
kill_found mgr id in_time (some e) =
    (with_sessions mgr (remove id mgr.sessions), (true, graceful_kill e.session in_time))

unfoldable pub kill_session : SessionManager → String → Bool → SessionManager × (Bool × List Kill)
kill_session mgr id in_time = kill_found mgr id in_time (lookup id mgr.sessions)

abbrev pub attached : ℕ → SessionEntry → SessionEntry
attached now e = record e {
  attached_count = saturating_add_u32 e.attached_count 1;
  last_activity = now;
}

abbrev pub attached_shared : ℕ → SessionEntry → SessionEntry
attached_shared now e = record e { attached_count = 1; last_activity = now }

abbrev pub detached : ℕ → SessionEntry → SessionEntry
detached now e = record e { attached_count = e.attached_count - 1; last_activity = now }

abbrev pub buffer_of : Pool → String → Option OutputBuffer
buffer_of m id = map_option (λ e. e.session.buffer) (lookup id m)

unfoldable pub attach : SessionManager → String → ℕ → SessionManager × Option OutputBuffer
unfolding update
attach mgr id now =
    (with_sessions mgr (update id (attached now) mgr.sessions), buffer_of mgr.sessions id)

unfoldable pub attach_shared : SessionManager → String → ℕ → SessionManager × Option OutputBuffer
unfolding update
attach_shared mgr id now =
    (with_sessions mgr (update id (attached_shared now) mgr.sessions), buffer_of mgr.sessions id)

unfoldable pub detach : SessionManager → String → ℕ → SessionManager
unfolding update
detach mgr id now = with_sessions mgr (update id (detached now) mgr.sessions)

-- `now` is read for each id; the reading is that of the call.
unfoldable pub detach_all : SessionManager → List String → ℕ → SessionManager
unfolding detach
detach_all mgr [] now = mgr
detach_all mgr (id ∷ ids) now = detach_all (detach mgr id now) ids now

abbrev pub renamed : String → SessionEntry → SessionEntry
renamed name e = record e { name = some name }

abbrev pub rename_found :
    SessionManager
    → String
    → String
    → Option SessionEntry
    → SessionManager × (SessionError ⊎ Unit {0})
rename_found mgr id name none = (mgr, inl (not_found id))
rename_found mgr id name (some e) =
    (with_sessions mgr (insert id (renamed name e) mgr.sessions), inr tt)

unfoldable pub rename_session :
    SessionManager → String → String → SessionManager × (SessionError ⊎ Unit {0})
rename_session mgr id name = rename_found mgr id name (lookup id mgr.sessions)
