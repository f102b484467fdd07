-- ===== src/Sessions/Manager/Steps.antt =====
-- server/src/sessions/mod.rs, server/src/sessions/session.rs: what may happen to the pool of
-- sessions, as steps. The lock of the map orders them.
use sctl.Prelude.{ℕ, Bool, List, [], ◌∷◌, Option, String}
use sctl.Sessions.Entry.{OutputStream}
use sctl.Sessions.Buffer.{push}
use sctl.Sessions.Session.{ManagedSession, watch_exit}
use sctl.Sessions.Journal.{ArchivedSession}
use sctl.Sessions.Manager.{
  SessionEntry, SessionManager, NewSession, Start, create_session_inner, update, kill_session,
  attach, attach_shared, detach, detach_all, rename_session, with_sessions,
}
use sctl.Sessions.Manager.Ai.{touch_ai_activity, set_user_allows_ai, set_ai_status}
use sctl.Sessions.Manager.Sweep.{sweep}
use sctl.Sessions.Manager.Recover.{recover_from_journal}

pub data Step : Type 0 where
  creates : NewSession → Start → Step
  -- The id and the message and code of the exit watcher, with the time of day.
  exits : String → String → ℕ → ℕ → Step
  outputs : String → OutputStream → String → ℕ → Step
  touches : String → ℕ → Step
  allows_ai : String → Bool → Step
  ai_works : String → Bool → Option String → Option String → ℕ → Step
  kills : String → Bool → Step
  kills_all : Step
  attaches attaches_shared detaches : String → ℕ → Step
  detaches_all : List String → ℕ → Step
  renames : String → String → Step
  sweeps : ℕ → (String → Bool) → (String → Bool) → Step
  recovers : List ArchivedSession → ℕ → ℕ → Step

abbrev pub with_session : (ManagedSession → ManagedSession) → SessionEntry → SessionEntry
with_session f e = record e { session = f e.session }

-- The reader tasks write to the buffer of a session.
abbrev pub outputs_to : OutputStream → String → ℕ → ManagedSession → ManagedSession
outputs_to stream text now s = record s { buffer = (push s.buffer stream text now).0 }

unfoldable pub perform : Step → SessionManager → SessionManager
unfolding create_session_inner update kill_session attach attach_shared detach detach_all
    rename_session touch_ai_activity set_user_allows_ai set_ai_status sweep recover_from_journal
    watch_exit
perform (creates req st) mgr = (create_session_inner mgr req st).0
perform (exits id message code now) mgr =
    with_sessions mgr (update id (with_session (λ s. watch_exit s message code now)) mgr.sessions)
perform (outputs id stream text now) mgr =
    with_sessions mgr (update id (with_session (outputs_to stream text now)) mgr.sessions)
perform (touches id now) mgr = touch_ai_activity mgr id now
perform (allows_ai id allowed) mgr = (set_user_allows_ai mgr id allowed).0
perform (ai_works id working activity message now) mgr =
    (set_ai_status mgr id working activity message now).0
perform (kills id in_time) mgr = (kill_session mgr id in_time).0
perform kills_all mgr = with_sessions mgr []
perform (attaches id now) mgr = (attach mgr id now).0
perform (attaches_shared id now) mgr = (attach_shared mgr id now).0
perform (detaches id now) mgr = detach mgr id now
perform (detaches_all ids now) mgr = detach_all mgr ids now
perform (renames id name) mgr = (rename_session mgr id name).0
perform (sweeps now contested in_time) mgr = (sweep mgr now contested in_time).manager
perform (recovers archived now epoch) mgr = recover_from_journal mgr archived now epoch

unfoldable pub run : List Step → SessionManager → SessionManager
unfolding perform
run [] mgr = mgr
run (s ∷ steps) mgr = run steps (perform s mgr)
