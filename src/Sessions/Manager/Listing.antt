-- ===== src/Sessions/Manager/Listing.antt =====
-- server/src/sessions/mod.rs: the list of the sessions, and the status of one.
use sctl.Prelude.{
  ℕ, ◌-◌, Bool, false, not, ◌&&◌, List, [], ◌∷◌, Option, none, some, String, ltb, string_eq,
}
use sctl.Prelude.Map.{lookup, map_option}
use sctl.Sessions.Session.{SessionStatus, running, exited}
use sctl.Sessions.Manager.{SessionEntry, SessionManager, Pool, as_str}

pub record SessionListItem : Type 0 where
  pub session_id : String
  pub pid : ℕ
  pub persistent : Bool
  pub pty : Bool
  pub kind : String
  pub attached : Bool
  pub status : String
  pub exit_code : Option ℕ
  pub idle : Bool
  pub idle_timeout : ℕ
  pub name : Option String
  pub created_at : ℕ
  pub user_allows_ai : Bool
  pub ai_is_working : Bool
  pub ai_activity : Option String
  pub ai_status_message : Option String

abbrev pub status_name : SessionStatus → String
status_name running = "running"
status_name exited = "exited"

abbrev pub idle_threshold : ℕ
idle_threshold = 60000

unfoldable pub list_item : ℕ → String → SessionEntry → SessionListItem
list_item now id e =
    let attached = ltb 0 e.attached_count in
    record {
      session_id = id;
      pid = e.session.pid;
      persistent = e.persistent;
      pty = e.session.has_pty;
      kind = as_str e.kind;
      attached = attached;
      status = status_name e.session.status;
      exit_code = e.session.exit_code;
      idle = not attached && ltb idle_threshold (now - e.last_activity);
      idle_timeout = e.idle_timeout;
      name = e.name;
      created_at = e.created_at;
      user_allows_ai = e.user_allows_ai;
      ai_is_working = e.ai_is_working;
      ai_activity = e.ai_activity;
      ai_status_message = e.ai_status_message;
    }

unfoldable pub list_sessions : Pool → ℕ → List SessionListItem
unfolding list_item
list_sessions [] now = []
list_sessions ((id, e) ∷ m) now = list_item now id e ∷ list_sessions m now

unfoldable pub get_status : SessionManager → String → Option (SessionStatus × Option ℕ)
get_status mgr id =
    map_option (λ e. (e.session.status, e.session.exit_code)) (lookup id mgr.sessions)

unfoldable pub is_persistent : SessionManager → String → Bool
is_persistent mgr id = elim (lookup id mgr.sessions) [ none ↦ false | some e ↦ e.persistent ]
