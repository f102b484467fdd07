-- ===== src/Sessions/Manager/Always.antt =====
-- server/src/sessions/mod.rs: the pool of sessions stays sound, whatever happens to it.
use sctl.Prelude.{
  string_eq, ℕ, ◌≡◌, refl, Bool, true, false, not, ◌&&◌, List, [], ◌∷◌, Option, none, some, String,
  arith, if-cases, ◌⊎◌,
}
use sctl.Prelude.Map.{lookup, Entries}
use sctl.Sessions.Journal.{ArchivedSession}
use sctl.Sessions.Manager.{
  SessionError, kill_found, rename_found, renamed, SessionEntry, SessionManager, kill_session,
  attach, attach_shared, detach, detach_all, rename_session, empty, attached, attached_shared,
  detached,
}
use sctl.Sessions.Manager.Ai.{
  allow_found, work_found, touch_ai_activity, touched, set_user_allows_ai, allows, set_ai_status,
  works,
}
use sctl.Sessions.Manager.Recover.{recovered_entry, load, recover_from_journal}
use sctl.Sessions.Manager.Steps.{
  Step, creates, exits, outputs, touches, allows_ai, ai_works, kills, kills_all, attaches,
  attaches_shared, detaches, detaches_all, renames, sweeps, recovers, perform, run,
}
use sctl.Sessions.Manager.Trimming.{length-trim}
use sctl.Sessions.Manager.Recovering.{load-Entries, load-Distinct, trim-Entries, trim-Distinct}
use sctl.Sessions.Manager.Invariant.{
  Sound, is_coherent, Coherent, insert-Sound, update-Sound, create-Sound, remove-Sound, sweep-Sound,
}

touched-coherent :
    (now : ℕ) (e : SessionEntry) → is_coherent e ≡ true → is_coherent (touched now e) ≡ true
touched-coherent now e h =
    if-cases (λ x. is_coherent x ≡ true) e.ai_is_working (λ w. ground (arith, w, h)) (λ _. h)

allows-coherent :
    (allowed : Bool) (e : SessionEntry)
    → is_coherent e ≡ true
    → is_coherent (allows allowed e) ≡ true
allows-coherent allowed e h =
    if-cases (λ x. is_coherent x ≡ true) (not allowed && e.ai_is_working) (λ _. refl)
      (λ w. ground (arith, w, h))

works-coherent :
    (working : Bool) (activity message : Option String) (now : ℕ) (e : SessionEntry)
    → (working && not e.user_allows_ai) ≡ false
    → is_coherent (works working activity message now e) ≡ true
works-coherent true activity message now e h = ground (arith, h)
works-coherent false activity message now e h = refl

allows_ai-Sound :
    (mgr : SessionManager) (id : String) (allowed : Bool)
    → Sound mgr
    → Sound (set_user_allows_ai mgr id allowed).0
unfolding set_user_allows_ai
allows_ai-Sound mgr id allowed v = found (lookup id mgr.sessions) refl
  where
    found :
        (o : Option SessionEntry)
        → lookup id mgr.sessions ≡ o
        → Sound (allow_found mgr id allowed o).0
    found none h = v
    found (some e) h =
        insert-Sound mgr v id e (allows allowed e) h (allows-coherent allowed e (v.coherent id e h))

ai_works-Sound :
    (mgr : SessionManager) (id : String) (working : Bool) (activity message : Option String)
    (now : ℕ)
    → Sound mgr
    → Sound (set_ai_status mgr id working activity message now).0
unfolding set_ai_status
ai_works-Sound mgr id working activity message now v = found (lookup id mgr.sessions) refl
  where
    found :
        (o : Option SessionEntry)
        → lookup id mgr.sessions ≡ o
        → Sound (work_found mgr id working activity message now o).0
    found none h = v
    found (some e) h =
        if-cases (λ (r : SessionManager × (SessionError ⊎ Unit {0})). Sound r.0)
          (working && not e.user_allows_ai) (λ _. v)
          (λ w.
            insert-Sound mgr v id e (works working activity message now e) h
              (works-coherent working activity message now e w))

kill-Sound :
    (mgr : SessionManager) (id : String) (in_time : Bool)
    → Sound mgr
    → Sound (kill_session mgr id in_time).0
unfolding kill_session
kill-Sound mgr id in_time v = found (lookup id mgr.sessions)
  where
    found : (o : Option SessionEntry) → Sound (kill_found mgr id in_time o).0
    found none = v
    found (some e) = remove-Sound mgr id v

rename-Sound :
    (mgr : SessionManager) (id name : String) → Sound mgr → Sound (rename_session mgr id name).0
unfolding rename_session
rename-Sound mgr id name v = found (lookup id mgr.sessions) refl
  where
    found :
        (o : Option SessionEntry)
        → lookup id mgr.sessions ≡ o
        → Sound (rename_found mgr id name o).0
    found none h = v
    found (some e) h = insert-Sound mgr v id e (renamed name e) h (v.coherent id e h)

detach-Sound :
    (mgr : SessionManager) (id : String) (now : ℕ) → Sound mgr → Sound (detach mgr id now)
unfolding detach
detach-Sound mgr id now v = update-Sound mgr v id (detached now) (λ e h. h)

detach_all-Sound :
    (mgr : SessionManager) (ids : List String) (now : ℕ)
    → Sound mgr
    → Sound (detach_all mgr ids now)
unfolding detach_all
detach_all-Sound mgr [] now v = v
detach_all-Sound mgr (id ∷ ids) now v =
    detach_all-Sound (detach mgr id now) ids now (detach-Sound mgr id now v)

recover-Sound :
    (mgr : SessionManager) (archived : List ArchivedSession) (now epoch : ℕ)
    → Sound mgr
    → Sound (recover_from_journal mgr archived now epoch)
unfolding recover_from_journal recovered_entry
recover-Sound mgr archived now epoch v =
    let loaded = load mgr archived now epoch in
    let d = load-Distinct mgr archived now epoch v.distinct in
    record {
      distinct = trim-Distinct loaded d;
      bounded = length-trim loaded d;
      coherent =
          trim-Entries Coherent loaded
            (load-Entries Coherent now epoch mgr archived coherent v.coherent);
    }
  where
    coherent :
        (mgr : SessionManager) (arch : ArchivedSession)
        → Coherent arch.session_id (recovered_entry mgr arch now epoch)
    coherent mgr arch = refl

none-Coherent : Entries Coherent []
unfolding lookup
none-Coherent j e h = absurd (ground (arith, h))

perform-Sound : (s : Step) (mgr : SessionManager) → Sound mgr → Sound (perform s mgr)
unfolding perform attach attach_shared touch_ai_activity
perform-Sound (creates req st) mgr v = create-Sound mgr req st v
perform-Sound (exits id message code now) mgr v = update-Sound mgr v id _ (λ e h. h)
perform-Sound (outputs id stream text now) mgr v = update-Sound mgr v id _ (λ e h. h)
perform-Sound (touches id now) mgr v = update-Sound mgr v id (touched now) (touched-coherent now)
perform-Sound (allows_ai id allowed) mgr v = allows_ai-Sound mgr id allowed v
perform-Sound (ai_works id working activity message now) mgr v =
    ai_works-Sound mgr id working activity message now v
perform-Sound (kills id in_time) mgr v = kill-Sound mgr id in_time v
perform-Sound kills_all mgr v = record {
  distinct = tt;
  bounded = omega arith;
  coherent = none-Coherent;
}
perform-Sound (attaches id now) mgr v = update-Sound mgr v id (attached now) (λ e h. h)
perform-Sound (attaches_shared id now) mgr v =
    update-Sound mgr v id (attached_shared now) (λ e h. h)
perform-Sound (detaches id now) mgr v = detach-Sound mgr id now v
perform-Sound (detaches_all ids now) mgr v = detach_all-Sound mgr ids now v
perform-Sound (renames id name) mgr v = rename-Sound mgr id name v
perform-Sound (sweeps now contested in_time) mgr v = sweep-Sound mgr now contested in_time v
perform-Sound (recovers archived now epoch) mgr v = recover-Sound mgr archived now epoch v

-- Whatever happens to the pool of sessions, from the start on: no id stands twice, there are at most
-- as many sessions as configured, also after the recovery from the journals, the AI works only
-- where the user allows it, and nothing is told of what it does where it does not work.
pub run-Sound :
    (max_sessions size : ℕ) (journals : Bool) (steps : List Step)
    → Sound (run steps (empty max_sessions size journals))
unfolding run empty
run-Sound max_sessions size journals steps = keeps steps (empty max_sessions size journals) start
  where
    start : Sound (empty max_sessions size journals)
    start = record { distinct = tt; bounded = omega arith; coherent = none-Coherent }

    keeps : (steps : List Step) (mgr : SessionManager) → Sound mgr → Sound (run steps mgr)
    keeps [] mgr v = v
    keeps (s ∷ steps) mgr v = keeps steps (perform s mgr) (perform-Sound s mgr v)
