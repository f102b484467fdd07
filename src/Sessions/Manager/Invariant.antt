-- ===== src/Sessions/Manager/Invariant.antt =====
-- server/src/sessions/mod.rs: what every operation on the pool of sessions keeps.
use sctl.Prelude.{
  ℕ, ◌≡◌, ◌≤◌, refl, sym, ◌∙◌, subst, Bool, true, false, not, ◌&&◌, ◌⊎◌, inl, inr, List, [], ◌∷◌,
  Option, none, some, String, arith, if◌then◌else◌, if-cases, leb, length, string_eq,
}
use sctl.Prelude.Map.{
  map_option, lookup, insert, remove, Distinct, insert-Distinct, remove-Distinct,
  map_values-Distinct, Entries, Entries-insert, Entries-remove, length-insert-le, map_values,
  lookup-map_values,
}
use sctl.Sessions.Manager.{
  put_back, process_started, SessionError, SessionEntry, SessionManager, Pool, NewSession, Start,
  new_entry, create_session_inner, update, with_sessions,
}
use sctl.Sessions.Manager.Sweep.{
  sweep, ids_where, remove_each, removed, ai_cleared, is_dead, is_idle_expired, is_ai_idle,
}
use sctl.Sessions.Manager.Removal.{lookup-remove_each, remove_each-Distinct, mem}

abbrev pub is_some {ℓ} : {A : Type ℓ} → Option A → Bool
is_some none = false
is_some (some a) = true

-- The AI works only where the user allows it and with the time of its last activity, and what it
-- does is told only while it works.
abbrev pub is_coherent : SessionEntry → Bool
is_coherent e =
    if e.ai_is_working
    then e.user_allows_ai && is_some e.ai_last_activity
    else not (is_some e.ai_activity) && not (is_some e.ai_status_message)

abbrev pub Coherent : String → SessionEntry → Type 0
Coherent id e = is_coherent e ≡ true

pub record Sound (mgr : SessionManager) : Type 0 where
  pub distinct : Distinct mgr.sessions
  pub bounded : length mgr.sessions ≤ mgr.max_sessions
  pub coherent : Entries Coherent mgr.sessions

length-insert_present :
    (id : String) (e x : SessionEntry) (m : Pool)
    → lookup id m ≡ some x
    → length (insert id e m) ≡ length m
unfolding lookup insert
length-insert_present id e x [] h = absurd (ground (arith, h))
length-insert_present id e x ((j, y) ∷ m) h = ground (arith, length-insert_present id e x m, h)

length-remove-le : (id : String) (m : Pool) → length (remove id m) ≤ length m
unfolding remove
length-remove-le id [] = omega arith
length-remove-le id ((j, y) ∷ m) = ground (arith, length-remove-le id m)

length-removed-le :
    (i : String) (o : Option SessionEntry) (same rest : Pool × Pool) (n : ℕ)
    → length same.0 ≤ n
    → length rest.0 ≤ n
    → length (removed i o same rest).0 ≤ n
length-removed-le i none same rest n h h' = h
length-removed-le i (some e) same rest n h h' = h'

length-remove_each-le : (ids : List String) (m : Pool) → length (remove_each ids m).0 ≤ length m
unfolding remove_each
length-remove_each-le [] m = omega arith
length-remove_each-le (i ∷ ids) m =
    length-removed-le i (lookup i m) (remove_each ids m) (remove_each ids (remove i m)) (length m)
      (length-remove_each-le ids m)
      (omega (arith, length-remove_each-le ids (remove i m), length-remove-le i m))

length-map_values :
    (f : SessionEntry → SessionEntry) (m : Pool) → length (map_values f m) ≡ length m
unfolding map_values
length-map_values f [] = refl
length-map_values f ((i, e) ∷ m) = ground (arith, length-map_values f m)

remove_each-Entries :
    (ids : List String) (m : Pool) → Entries Coherent m → Entries Coherent (remove_each ids m).0
remove_each-Entries ids m all j e h =
    all j e (kept (mem j ids) (lookup j m) (sym (lookup-remove_each ids m j) ∙ h))
  where
    kept : (b : Bool) (o : Option SessionEntry) → (if b then none else o) ≡ some e → o ≡ some e
    kept true o h = absurd (ground (arith, h))
    kept false o h = h

map_values-Entries :
    (f : SessionEntry → SessionEntry) (m : Pool)
    → ((e : SessionEntry) → is_coherent e ≡ true → is_coherent (f e) ≡ true)
    → Entries Coherent m
    → Entries Coherent (map_values f m)
map_values-Entries f m keeps all j e h = kept (lookup j m) refl (sym (lookup-map_values f j m) ∙ h)
  where
    same : (x : SessionEntry) → some (f x) ≡ some e → f x ≡ e
    same x h = cc h

    kept : (o : Option SessionEntry) → lookup j m ≡ o → map_option f o ≡ some e → Coherent j e
    kept none at h = absurd (ground (arith, h))
    kept (some x) at h = subst (λ e. is_coherent e ≡ true) (same x h) (keeps x (all j x at))

module _ (mgr : SessionManager) (v : Sound mgr) where
  -- An entry that is changed in place.
  pub insert-Sound :
      (id : String) (x e : SessionEntry)
      → lookup id mgr.sessions ≡ some x
      → is_coherent e ≡ true
      → Sound (with_sessions mgr (insert id e mgr.sessions))
  insert-Sound id x e h c = record {
    distinct = insert-Distinct id e mgr.sessions v.distinct;
    bounded = omega (arith, length-insert_present id e x mgr.sessions h, v.bounded);
    coherent = Entries-insert Coherent id e mgr.sessions c v.coherent;
  }

  pub update-Sound :
      (id : String) (f : SessionEntry → SessionEntry)
      → ((e : SessionEntry) → is_coherent e ≡ true → is_coherent (f e) ≡ true)
      → Sound (with_sessions mgr (update id f mgr.sessions))
  unfolding update
  update-Sound id f keeps = found (lookup id mgr.sessions) refl
    where
      found :
          (o : Option SessionEntry)
          → lookup id mgr.sessions ≡ o
          → Sound (with_sessions mgr (put_back id f mgr.sessions o))
      found none h = record { distinct = v.distinct; bounded = v.bounded; coherent = v.coherent }
      found (some x) h = insert-Sound id x (f x) h (keeps x (v.coherent id x h))

pub create-Sound :
    (mgr : SessionManager) (req : NewSession) (st : Start)
    → Sound mgr
    → Sound (create_session_inner mgr req st).0
unfolding create_session_inner new_entry
create-Sound mgr req st v =
    if-cases (λ (r : SessionManager × (SessionError ⊎ (String × ℕ))). Sound r.0)
      (leb mgr.max_sessions (length mgr.sessions)) (λ _. v) (λ room. started st.process room)
  where
    started :
        (p : String ⊎ ℕ)
        → leb mgr.max_sessions (length mgr.sessions) ≡ false
        → Sound (process_started mgr req st p).0
    started (inl e) room = v
    started (inr pid) room = record {
      distinct = insert-Distinct st.session_id _ mgr.sessions v.distinct;
      bounded =
          ground
            (arith, room, length-insert-le st.session_id (new_entry mgr req st pid) mgr.sessions);
      coherent =
          Entries-insert Coherent st.session_id (new_entry mgr req st pid) mgr.sessions refl
            v.coherent;
    }

pub remove-Sound :
    (mgr : SessionManager) (id : String)
    → Sound mgr
    → Sound (with_sessions mgr (remove id mgr.sessions))
remove-Sound mgr id v = record {
  distinct = remove-Distinct id mgr.sessions v.distinct;
  bounded = omega (arith, length-remove-le id mgr.sessions, v.bounded);
  coherent = Entries-remove Coherent id mgr.sessions v.coherent;
}

remove_each-Sound :
    (mgr : SessionManager) (ids : List String)
    → Sound mgr
    → Sound (with_sessions mgr (remove_each ids mgr.sessions).0)
remove_each-Sound mgr ids v = record {
  distinct = remove_each-Distinct ids mgr.sessions v.distinct;
  bounded = omega (arith, length-remove_each-le ids mgr.sessions, v.bounded);
  coherent = remove_each-Entries ids mgr.sessions v.coherent;
}

cleared-coherent :
    (now : ℕ) (e : SessionEntry) → is_coherent e ≡ true → is_coherent (ai_cleared now e) ≡ true
cleared-coherent now e h =
    if-cases (λ x. is_coherent x ≡ true) (is_ai_idle now e) (λ _. refl) (λ _. h)

pub sweep-Sound :
    (mgr : SessionManager) (now : ℕ) (contested in_time : String → Bool)
    → Sound mgr
    → Sound (sweep mgr now contested in_time).manager
unfolding sweep
sweep-Sound mgr now contested in_time v =
    let m = map_values (ai_cleared now) mgr.sessions in
    let cleared : Sound (with_sessions mgr m) = record {
      distinct = map_values-Distinct (ai_cleared now) mgr.sessions v.distinct;
      bounded = omega (arith, length-map_values (ai_cleared now) mgr.sessions, v.bounded);
      coherent = map_values-Entries (ai_cleared now) mgr.sessions (cleared-coherent now) v.coherent;
    } in
    let dead = ids_where (is_dead contested) m in
    let left = (remove_each dead m).0 in
    remove_each-Sound (with_sessions mgr left) (ids_where (λ id e. is_idle_expired now e) left)
      (remove_each-Sound (with_sessions mgr m) dead cleared)
