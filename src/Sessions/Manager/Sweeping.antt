-- ===== src/Sessions/Manager/Sweeping.antt =====
-- server/src/sessions/mod.rs: which sessions a sweep keeps, and as what.
use sctl.Prelude.{
  ◌+◌, ◌*◌, ◌-◌, ◌==◌, not, ◌&&◌, ltb, Bool-cases, inl, inr, sym, ℕ, ◌≡◌, refl, ap, ◌∙◌, Bool, true,
  false, ◌||◌, Option, none, some, String, arith, if◌then◌else◌, string_eq, if-cases,
}
use sctl.Prelude.Map.{
  lookup, lookup-map_values, Distinct, map_values, map_values-Distinct, map_option,
}
use sctl.Sessions.Session.{SessionStatus, running, exited}
use sctl.Sessions.Manager.{SessionEntry, SessionManager, Pool}
use sctl.Sessions.Manager.Sweep.{
  sweep, ids_where, remove_each, is_dead, is_idle_expired, ai_cleared, is_ai_idle,
}
use sctl.Sessions.Manager.Removal.{
  mem, meets, lookup-remove_each, mem-ids_where, remove_each-Distinct,
}

abbrev dead_left : SessionManager → ℕ → (String → Bool) → Pool
dead_left mgr now contested =
    let m = map_values (ai_cleared now) mgr.sessions in
    (remove_each (ids_where (is_dead contested) m) m).0

-- An exited session goes, unless its status is being read or written just now.
abbrev pub exited_goes : Bool → SessionStatus → Bool
exited_goes contested running = false
exited_goes contested exited = not contested

-- A session that nobody is attached to goes when its idle timeout, in seconds and not 0, is over
-- since its last activity.
abbrev pub idle_goes : ℕ → SessionEntry → Bool
idle_goes now e =
    e.attached_count == 0
    && not (e.idle_timeout == 0)
    && ltb (e.last_activity + 1000 * e.idle_timeout) now

abbrev pub goes : ℕ → (String → Bool) → String → SessionEntry → Bool
goes now contested id e = exited_goes (contested id) e.session.status || idle_goes now e

-- Whether the AI has been working for more than a minute without a sign of it.
abbrev pub ai_silent : ℕ → Bool → Option ℕ → Bool
ai_silent now false last = false
ai_silent now true none = false
ai_silent now true (some last) = ltb (last + 60000) now

-- What a session that stays is left as.
abbrev pub settled : ℕ → SessionEntry → SessionEntry
settled now e =
    let silent = ai_silent now e.ai_is_working e.ai_last_activity in
    record e {
      ai_is_working = if silent then false else e.ai_is_working;
      ai_activity = if silent then none else e.ai_activity;
      ai_status_message = if silent then none else e.ai_status_message;
      ai_last_activity = if silent then none else e.ai_last_activity;
    }

abbrev pub swept : ℕ → (String → Bool) → String → Option SessionEntry → Option SessionEntry
swept now contested id none = none
swept now contested id (some e) = if goes now contested id e then none else some (settled now e)

-- The same, with the tests of the code.
abbrev goes_by_code : ℕ → (String → Bool) → String → SessionEntry → Bool
goes_by_code now contested id e = is_dead contested id e || is_idle_expired now e

abbrev left_by_code : ℕ → (String → Bool) → String → Option SessionEntry → Option SessionEntry
left_by_code now contested id none = none
left_by_code now contested id (some e) =
    if goes_by_code now contested id e then none else some (ai_cleared now e)

is_dead-exited_goes :
    (contested : String → Bool) (id : String) (e : SessionEntry)
    → is_dead contested id e ≡ exited_goes (contested id) e.session.status
is_dead-exited_goes contested id e = ground arith

is_idle_expired-idle_goes : (now : ℕ) (e : SessionEntry) → is_idle_expired now e ≡ idle_goes now e
is_idle_expired-idle_goes now e = ground arith

is_ai_idle-ai_silent :
    (now : ℕ) (e : SessionEntry)
    → is_ai_idle now e ≡ ai_silent now e.ai_is_working e.ai_last_activity
is_ai_idle-ai_silent now e = split e.ai_is_working e.ai_last_activity
  where
    split :
        (b : Bool) (o : Option ℕ)
        → (elim o [ none ↦ false | some t ↦ b && ltb 60000 (now - t) ]) ≡ ai_silent now b o
    split false none = refl
    split true none = refl
    split false (some t) = refl
    split true (some t) = ground arith

ai_cleared-settled : (now : ℕ) (e : SessionEntry) → ai_cleared now e ≡ settled now e
ai_cleared-settled now e =
    let same = is_ai_idle-ai_silent now e in
    elim (Bool-cases (is_ai_idle now e)) [
      | inl silent ↦ rw (silent, sym same ∙ silent) refl
      | inr works ↦ rw (works, sym same ∙ works) refl
    ]

left_by_code-swept :
    (now : ℕ) (contested : String → Bool) (id : String) (o : Option SessionEntry)
    → left_by_code now contested id o ≡ swept now contested id o
left_by_code-swept now contested id none = refl
left_by_code-swept now contested id (some e) =
    rw
      (
        is_dead-exited_goes contested id e,
        is_idle_expired-idle_goes now e,
        ai_cleared-settled now e,
      )
      refl

goes_by_code-cleared :
    (now : ℕ) (contested : String → Bool) (id : String) (e : SessionEntry)
    → goes_by_code now contested id (ai_cleared now e) ≡ goes_by_code now contested id e
goes_by_code-cleared now contested id e =
    if-cases (λ x. goes_by_code now contested id x ≡ goes_by_code now contested id e)
      (is_ai_idle now e) (λ _. refl) (λ _. refl)

sweep-by_code :
    (mgr : SessionManager) (now : ℕ) (contested in_time : String → Bool) (id : String)
    → Distinct mgr.sessions
    → lookup id (sweep mgr now contested in_time).manager.sessions
      ≡ left_by_code now contested id (lookup id mgr.sessions)
unfolding sweep
sweep-by_code mgr now contested in_time id d =
    let m = map_values (ai_cleared now) mgr.sessions in
    let dm = map_values-Distinct (ai_cleared now) mgr.sessions d in
    let dead = ids_where (is_dead contested) m in
    let left = (remove_each dead m).0 in
    let expired = ids_where (λ id e. is_idle_expired now e) left in
    both (lookup id mgr.sessions) (lookup id m) (lookup id left) (mem id dead) (mem id expired)
      (lookup id (remove_each expired left).0) (lookup-map_values (ai_cleared now) id mgr.sessions)
      (lookup-remove_each dead m id) (lookup-remove_each expired left id)
      (mem-ids_where (is_dead contested) m id dm)
      (mem-ids_where (λ id e. is_idle_expired now e) left id (remove_each-Distinct dead m dm))
  where
    both :
        (o o1 o2 : Option SessionEntry) (dead expired : Bool) (r : Option SessionEntry)
        → o1 ≡ map_option (ai_cleared now) o
        → o2 ≡ (if dead then none else o1)
        → r ≡ (if expired then none else o2)
        → dead ≡ meets (is_dead contested) id o1
        → expired ≡ meets (λ id e. is_idle_expired now e) id o2
        → r ≡ left_by_code now contested id o
    both none o1 o2 dead expired r e1 e2 e3 e4 e5 = ground (arith, e1, e2, e3)
    both (some e) o1 o2 true expired r e1 e2 e3 e4 e5 = ground (
      arith,
      goes_by_code-cleared now contested id e,
      e2,
      e3,
      e4 ∙ ap (meets (is_dead contested) id) e1,
    )
    both (some e) o1 o2 false expired r e1 e2 e3 e4 e5 = ground (
      arith,
      goes_by_code-cleared now contested id e,
      e1,
      e2,
      e3,
      e4 ∙ ap (meets (is_dead contested) id) e1,
      e5 ∙ ap (meets (λ id e. is_idle_expired now e) id) (e2 ∙ e1),
    )

-- After a sweep a session is there exactly if it was there and stays. It goes if it has exited and
-- its status is not being read or written just now, or if nobody is attached to it and its idle
-- timeout is over, unless that is 0. In one that stays the AI's work is cleared if there has been no
-- sign of it for more than a minute, and nothing else has changed.
pub sweep-lookup :
    (mgr : SessionManager) (now : ℕ) (contested in_time : String → Bool) (id : String)
    → Distinct mgr.sessions
    → lookup id (sweep mgr now contested in_time).manager.sessions
      ≡ swept now contested id (lookup id mgr.sessions)
sweep-lookup mgr now contested in_time id d =
    sweep-by_code mgr now contested in_time id d
    ∙ left_by_code-swept now contested id (lookup id mgr.sessions)
