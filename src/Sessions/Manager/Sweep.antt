-- ===== src/Sessions/Manager/Sweep.antt =====
-- server/src/sessions/mod.rs: the periodic sweep. Which status locks are held by others, and
-- which of the killed processes exit in time, are arguments.
use sctl.Prelude.{
  Option, ℕ, ◌-◌, ◌*◌, Bool, true, false, not, ◌&&◌, List, [], ◌∷◌, ◌++◌, map, none, some, String,
  leb, ltb, if◌then◌else◌, string_eq,
}
use sctl.Prelude.Map.{lookup, remove, map_values}
use sctl.Sessions.Session.{SessionStatus, running, exited, Kill, graceful_kill}
use sctl.Sessions.Manager.{SessionEntry, SessionManager, Pool, with_sessions}

pub data SweepEvent : Type 0 where
  destroyed : String → String → SweepEvent
  ai_auto_cleared : String → SweepEvent

abbrev pub ai_idle_timeout : ℕ
ai_idle_timeout = 60000

abbrev pub is_ai_idle : ℕ → SessionEntry → Bool
is_ai_idle now e = elim e.ai_last_activity [
  | none ↦ false
  | some t ↦ e.ai_is_working && ltb ai_idle_timeout (now - t)
]

abbrev pub ai_cleared : ℕ → SessionEntry → SessionEntry
ai_cleared now e =
    if is_ai_idle now e
    then record e {
      ai_is_working = false;
      ai_activity = none;
      ai_status_message = none;
      ai_last_activity = none;
    }
    else e

abbrev pub has_exited : SessionStatus → Bool
has_exited running = false
has_exited exited = true

-- A session whose status lock is held is left for the next sweep.
abbrev pub is_dead : (String → Bool) → String → SessionEntry → Bool
is_dead contested id e = not (contested id) && has_exited e.session.status

abbrev pub is_idle_expired : ℕ → SessionEntry → Bool
is_idle_expired now e =
    ltb 0 e.idle_timeout
    && leb e.attached_count 0
    && ltb (e.idle_timeout * 1000) (now - e.last_activity)

-- The ids of the entries that meet a test.
unfoldable pub ids_where : (String → SessionEntry → Bool) → Pool → List String
ids_where p [] = []
ids_where p ((id, e) ∷ m) = if p id e then id ∷ ids_where p m else ids_where p m

-- What is removed is the entry that was found, if any.
abbrev pub removed : String → Option SessionEntry → Pool × Pool → Pool × Pool → Pool × Pool
removed id none same rest = same
removed id (some e) same rest = (rest.0, (id, e) ∷ rest.1)

-- `remove` for each of the ids, with what is removed.
unfoldable pub remove_each : List String → Pool → Pool × Pool
remove_each [] m = (m, [])
remove_each (id ∷ ids) m =
    removed id (lookup id m) (remove_each ids m) (remove_each ids (remove id m))

abbrev pub events_of : String → Pool → List SweepEvent
events_of reason [] = []
events_of reason ((id, e) ∷ m) = destroyed id reason ∷ events_of reason m

abbrev pub kills_of : (String → Bool) → Pool → List Kill
kills_of in_time [] = []
kills_of in_time ((id, e) ∷ m) = graceful_kill e.session (in_time id) ++ kills_of in_time m

pub record Swept : Type 0 where
  pub manager : SessionManager
  pub events : List SweepEvent
  pub kills : List Kill

unfoldable pub sweep : SessionManager → ℕ → (String → Bool) → (String → Bool) → Swept
unfolding ids_where remove_each
sweep mgr now contested in_time =
    let cleared = ids_where (λ id e. is_ai_idle now e) mgr.sessions in
    let m = map_values (ai_cleared now) mgr.sessions in
    let dead = remove_each (ids_where (is_dead contested) m) m in
    let expired = remove_each (ids_where (λ id e. is_idle_expired now e) dead.0) dead.0 in
    record {
      manager = with_sessions mgr expired.0;
      events =
          map ai_auto_cleared cleared
          ++ events_of "exited" dead.1
          ++ events_of "idle_timeout" expired.1;
      kills = kills_of in_time expired.1;
    }
