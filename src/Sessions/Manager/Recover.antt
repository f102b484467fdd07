-- ===== src/Sessions/Manager/Recover.antt =====
-- server/src/sessions/mod.rs: the sessions that are loaded from the journals at the start.
use sctl.Prelude.{
  ℕ, ◌-◌, true, false, List, [], ◌∷◌, map, Option, none, some, String, leb, if◌then◌else◌, length,
  take, string_eq,
}
use sctl.Prelude.Map.{insert}
use sctl.Sessions.Session.{archived}
use sctl.Sessions.Manager.{SessionEntry, SessionManager, Pool, with_sessions, terminal}
use sctl.Sessions.Journal.{ArchivedSession}
use sctl.Sessions.Entry.{OutputEntry}
use sctl.Sessions.Buffer.{OutputBuffer, new, push}
use sctl.Sessions.Manager.Sweep.{remove_each}

-- Every entry is pushed anew, with the clock's reading `now`.
unfoldable pub replay : OutputBuffer → List OutputEntry → ℕ → OutputBuffer
replay b [] now = b
replay b (e ∷ es) now = replay (push b e.stream e.payload now).0 es now

unfoldable pub recovered_entry : SessionManager → ArchivedSession → ℕ → ℕ → SessionEntry
unfolding replay
recovered_entry mgr arch now epoch = record {
  session = archived (replay (new mgr.buffer_size) arch.entries epoch) arch.exit_code;
  kind = terminal;
  persistent = arch.metadata.persistent;
  last_activity = now;
  attached_count = 0;
  idle_timeout = 0;
  name = none;
  created_at = arch.metadata.created;
  user_allows_ai = true;
  ai_is_working = false;
  ai_activity = none;
  ai_status_message = none;
  ai_last_activity = none;
}

-- A session that has exited is left on the disk.
abbrev pub load_one : SessionManager → ArchivedSession → ℕ → ℕ → Option ℕ → SessionManager
load_one mgr arch now epoch (some code) = mgr
load_one mgr arch now epoch none =
    with_sessions mgr (insert arch.session_id (recovered_entry mgr arch now epoch) mgr.sessions)

unfoldable pub load : SessionManager → List ArchivedSession → ℕ → ℕ → SessionManager
load mgr [] now epoch = mgr
load mgr (arch ∷ rest) now epoch = load (load_one mgr arch now epoch arch.exit_code) rest now epoch

-- The ids by their time of creation; sessions of the same time stay in order.
unfoldable pub insert_by_created : String → ℕ → List (String × ℕ) → List (String × ℕ)
insert_by_created id t [] = (id, t) ∷ []
insert_by_created id t ((j, u) ∷ l) =
    if leb t u then (id, t) ∷ (j, u) ∷ l else (j, u) ∷ insert_by_created id t l

unfoldable pub ids_by_created : Pool → List (String × ℕ)
unfolding insert_by_created
ids_by_created [] = []
ids_by_created ((id, e) ∷ m) = insert_by_created id e.created_at (ids_by_created m)

unfoldable pub trim : SessionManager → SessionManager
unfolding ids_by_created
trim mgr =
    let excess = length mgr.sessions - mgr.max_sessions in
    with_sessions mgr
      (remove_each (map (λ x. x.0) (take excess (ids_by_created mgr.sessions))) mgr.sessions).0

unfoldable pub recover_from_journal : SessionManager → List ArchivedSession → ℕ → ℕ → SessionManager
unfolding load trim
recover_from_journal mgr archived now epoch = trim (load mgr archived now epoch)
