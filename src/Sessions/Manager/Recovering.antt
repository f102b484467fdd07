-- ===== src/Sessions/Manager/Recovering.antt =====
-- server/src/sessions/mod.rs: the fate of the sessions that are loaded from the journals.
use sctl.Prelude.{
  ◌-◌, ℕ, ◌≡◌, refl, ap, ◌∙◌, Bool, true, false, inr, List, [], ◌∷◌, map, take, Option, none, some,
  String, arith, string_eq, Bool-cases, inl, length,
}
use sctl.Prelude.Map.{lookup, Distinct, insert-Distinct, Entries, Entries-insert}
use sctl.Sessions.Session
use sctl.Sessions.Session.{kill_group, send_signal}
use sctl.Sessions.Journal.{ArchivedSession}
use sctl.Sessions.Manager.{SessionEntry, SessionManager, empty, signal_session}
use sctl.Sessions.Manager.Sweep.{sweep, has_exited}
use sctl.Sessions.Manager.Recover.{
  recovered_entry, load_one, load, ids_by_created, trim, recover_from_journal,
}
use sctl.Sessions.Manager.Removal.{mem, lookup-remove_each, remove_each-Distinct, empty_pool}
use sctl.Sessions.Manager.Sweeping.{sweep-lookup, swept}

-- Loading keeps what holds of every recovered session.
module _ (P : String → SessionEntry → Type 0) (now epoch : ℕ) where
  load_one-Entries :
      (mgr : SessionManager) (arch : ArchivedSession) (o : Option ℕ)
      → P arch.session_id (recovered_entry mgr arch now epoch)
      → Entries P mgr.sessions
      → Entries P (load_one mgr arch now epoch o).sessions
  load_one-Entries mgr arch (some code) p all = all
  load_one-Entries mgr arch none p all =
      Entries-insert P arch.session_id (recovered_entry mgr arch now epoch) mgr.sessions p all

  pub load-Entries :
      (mgr : SessionManager) (stored : List ArchivedSession)
      → ((mgr : SessionManager) (arch : ArchivedSession)
          → P arch.session_id (recovered_entry mgr arch now epoch))
      → Entries P mgr.sessions
      → Entries P (load mgr stored now epoch).sessions
  unfolding load
  load-Entries mgr [] p all = all
  load-Entries mgr (arch ∷ rest) p all =
      load-Entries (load_one mgr arch now epoch arch.exit_code) rest p
        (load_one-Entries mgr arch arch.exit_code (p mgr arch) all)

load_one-Distinct :
    (mgr : SessionManager) (arch : ArchivedSession) (now epoch : ℕ) (o : Option ℕ)
    → Distinct mgr.sessions
    → Distinct (load_one mgr arch now epoch o).sessions
load_one-Distinct mgr arch now epoch (some code) d = d
load_one-Distinct mgr arch now epoch none d = insert-Distinct arch.session_id _ mgr.sessions d

pub load-Distinct :
    (mgr : SessionManager) (stored : List ArchivedSession) (now epoch : ℕ)
    → Distinct mgr.sessions
    → Distinct (load mgr stored now epoch).sessions
unfolding load
load-Distinct mgr [] now epoch d = d
load-Distinct mgr (arch ∷ rest) now epoch d =
    load-Distinct (load_one mgr arch now epoch arch.exit_code) rest now epoch
      (load_one-Distinct mgr arch now epoch arch.exit_code d)

pub trim-Entries :
    (P : String → SessionEntry → Type 0) (mgr : SessionManager)
    → Entries P mgr.sessions
    → Entries P (trim mgr).sessions
unfolding trim
trim-Entries P mgr all j e h = elim (Bool-cases (mem j ids)) [
  | inl gone ↦ absurd (ground (arith, lookup-remove_each ids mgr.sessions j, gone, h))
  | inr kept ↦ all j e (ground (arith, lookup-remove_each ids mgr.sessions j, kept, h))
]
  where
    ids : List String
    ids =
        map (λ x. x.0) (take (length mgr.sessions - mgr.max_sessions) (ids_by_created mgr.sessions))

pub trim-Distinct : (mgr : SessionManager) → Distinct mgr.sessions → Distinct (trim mgr).sessions
unfolding trim
trim-Distinct mgr d = remove_each-Distinct _ mgr.sessions d

-- The recovered sessions have no process, and count as exited.
abbrev pub Lifeless : String → SessionEntry → Type 0
Lifeless id e = (has_exited e.session.status ≡ true) × (e.session.pgid ≡ 0)

abbrev pub recovered : ℕ → ℕ → Bool → List ArchivedSession → ℕ → ℕ → SessionManager
recovered max_sessions size journals stored now epoch =
    recover_from_journal (empty max_sessions size journals) stored now epoch

recovered-Lifeless :
    (max_sessions size : ℕ) (journals : Bool) (stored : List ArchivedSession) (now epoch : ℕ)
    → Entries Lifeless (recovered max_sessions size journals stored now epoch).sessions
unfolding recover_from_journal empty recovered_entry Session.archived lookup
recovered-Lifeless max_sessions size journals stored now epoch =
    trim-Entries Lifeless (load (empty max_sessions size journals) stored now epoch) (
      load-Entries Lifeless now epoch (empty max_sessions size journals) stored lifeless
        (λ j e h. absurd (nothing j h)))
  where
    lifeless :
        (mgr : SessionManager) (arch : ArchivedSession)
        → Lifeless arch.session_id (recovered_entry mgr arch now epoch)
    lifeless mgr arch = (refl, refl)

    nothing :
        {e : SessionEntry} (j : String)
        → lookup j (empty max_sessions size journals).sessions ≡ some e
        → ⊥
    nothing j h = ground (arith, h)

-- Every session that the start loads from the journals is gone after the first sweep in which no
-- status is being read or written, however its process ended.
pub sweep-recovered :
    (max_sessions size : ℕ) (journals : Bool) (stored : List ArchivedSession) (now epoch later : ℕ)
    (in_time : String → Bool)
    → (sweep
        (recovered max_sessions size journals stored now epoch)
        later
        (λ _. false)
        in_time).manager.sessions
      ≡ []
unfolding recover_from_journal empty
sweep-recovered max_sessions size journals stored now epoch later in_time = empty_pool _ λ j.
    sweep-lookup mgr later (λ _. false) in_time j
      (trim-Distinct (load (empty max_sessions size journals) stored now epoch)
        (load-Distinct (empty max_sessions size journals) stored now epoch tt))
    ∙ gone j (lookup j mgr.sessions) refl
  where
    mgr : SessionManager
    mgr = recovered max_sessions size journals stored now epoch

    gone :
        (j : String) (o : Option SessionEntry)
        → lookup j mgr.sessions ≡ o
        → swept later (λ _. false) j o ≡ none
    gone j none e = refl
    gone j (some x) e =
        ground (arith, (recovered-Lifeless max_sessions size journals stored now epoch j x e).0)

-- A signal for a session that was loaded from a journal goes to process group 0, which is the
-- server's own.
pub signal-recovered :
    (max_sessions size : ℕ) (journals : Bool) (stored : List ArchivedSession) (now epoch : ℕ)
    (id : String) (e : SessionEntry) (signal : ℕ)
    → lookup id (recovered max_sessions size journals stored now epoch).sessions ≡ some e
    → signal_session (recovered max_sessions size journals stored now epoch) id signal
      ≡ inr (kill_group 0 signal)
unfolding signal_session send_signal
signal-recovered max_sessions size journals stored now epoch id e signal h =
    rw (h, signal_session)
      (ap (λ g. inr (kill_group g signal))
        (recovered-Lifeless max_sessions size journals stored now epoch id e h).1)
