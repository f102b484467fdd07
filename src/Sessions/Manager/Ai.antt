-- ===== src/Sessions/Manager/Ai.antt =====
-- server/src/sessions/mod.rs: whether the AI may work in a session, and what it does there.
use sctl.Prelude.{
  ℕ, ◌⊎◌, inl, inr, Bool, true, false, not, ◌&&◌, Option, none, some, String, if◌then◌else◌,
  string_eq,
}
use sctl.Prelude.Map.{lookup, insert}
use sctl.Sessions.Manager.{
  SessionEntry, SessionManager, with_sessions, SessionError, not_found, ai_not_allowed, update,
}

abbrev pub touched : ℕ → SessionEntry → SessionEntry
touched now e = if e.ai_is_working then record e { ai_last_activity = some now } else e

unfoldable pub touch_ai_activity : SessionManager → String → ℕ → SessionManager
unfolding update
touch_ai_activity mgr id now = with_sessions mgr (update id (touched now) mgr.sessions)

abbrev pub allows : Bool → SessionEntry → SessionEntry
allows allowed e =
    if not allowed && e.ai_is_working
    then record e {
      user_allows_ai = allowed;
      ai_is_working = false;
      ai_activity = none;
      ai_status_message = none;
    }
    else record e { user_allows_ai = allowed }

abbrev pub allow_found :
    SessionManager → String → Bool → Option SessionEntry → SessionManager × (SessionError ⊎ Bool)
allow_found mgr id allowed none = (mgr, inl (not_found id))
allow_found mgr id allowed (some e) = (
  with_sessions mgr (insert id (allows allowed e) mgr.sessions),
  inr (not allowed && e.ai_is_working),
)

-- The answer says whether the AI's work has been cleared.
unfoldable pub set_user_allows_ai :
    SessionManager → String → Bool → SessionManager × (SessionError ⊎ Bool)
set_user_allows_ai mgr id allowed = allow_found mgr id allowed (lookup id mgr.sessions)

abbrev pub works : Bool → Option String → Option String → ℕ → SessionEntry → SessionEntry
works true activity message now e = record e {
  ai_is_working = true;
  ai_activity = activity;
  ai_status_message = message;
  ai_last_activity = some now;
}
works false activity message now e = record e {
  ai_is_working = false;
  ai_activity = none;
  ai_status_message = none;
  ai_last_activity = none;
}

abbrev pub work_found :
    SessionManager
    → String
    → Bool
    → Option String
    → Option String
    → ℕ
    → Option SessionEntry
    → SessionManager × (SessionError ⊎ Unit {0})
work_found mgr id working activity message now none = (mgr, inl (not_found id))
work_found mgr id working activity message now (some e) =
    if working && not e.user_allows_ai
    then (mgr, inl ai_not_allowed)
    else (with_sessions mgr (insert id (works working activity message now e) mgr.sessions), inr tt)

unfoldable pub set_ai_status :
    SessionManager
    → String
    → Bool
    → Option String
    → Option String
    → ℕ
    → SessionManager × (SessionError ⊎ Unit {0})
set_ai_status mgr id working activity message now =
    work_found mgr id working activity message now (lookup id mgr.sessions)
