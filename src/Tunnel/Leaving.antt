-- ===== src/Tunnel/Leaving.antt =====
-- server/src/tunnel/relay.rs: what the end of a client's connection leaves.
use sctl.Prelude.{
  true, codes_eq→eq, ◌≡◌, refl, ap, ◌∙◌, subst, Bool, false, ◌&&◌, List, [], ◌∷◌, Option, none,
  some, String, if◌then◌else◌, filter, all, codes_eq, codes_key, string_eq, str_eq, eq_iff, arith,
  Bool-cases, inl, inr,
}
use sctl.Prelude.Map.{lookup, Distinct, lookup-remove}
use sctl.Tunnel.Clients.{ClientId, Clients, is_member, without_member, Subscriptions}
use sctl.Tunnel.Routing.{one_of, sessions_of, unsubscribe_all, is_unwatched, leave}

-- The watchers but one.
abbrev pub others : ClientId → List ClientId → List ClientId
others id [] = []
others id (x ∷ xs) = if codes_eq x id then others id xs else x ∷ others id xs

abbrev pub unless_empty : List ClientId → Option (List ClientId)
unless_empty [] = none
unless_empty (x ∷ xs) = some (x ∷ xs)

others-without_member :
    (id : ClientId) (ids : List ClientId) → without_member id ids ≡ others id ids
others-without_member id [] = refl
others-without_member id (x ∷ ids) = ground (arith, others-without_member id ids)

abbrev pub left_by : ClientId → Option (List ClientId) → Option (List ClientId)
left_by id none = none
left_by id (some ids) = unless_empty (others id ids)

-- Whether the client watches and is the only one: every watcher is that client, and there is one.
abbrev pub watched_only : ClientId → Option (List ClientId) → Bool
watched_only id none = false
watched_only id (some []) = false
watched_only id (some (x ∷ xs)) = all (λ y. codes_eq y id) (x ∷ xs)

lookup-unsubscribe_all :
    (id : ClientId) (m : Subscriptions) (sid : String)
    → Distinct m
    → lookup sid (unsubscribe_all id m) ≡ left_by id (lookup sid m)
unfolding unsubscribe_all lookup
lookup-unsubscribe_all id [] sid d = refl
lookup-unsubscribe_all id ((s, ids) ∷ m) sid d = elim (Bool-cases (str_eq s sid)) [
  | inl same ↦ ground (
    arith,
    same,
    others-without_member id ids,
    lookup-unsubscribe_all id m sid d.1,
    subst (λ k. lookup k m ≡ none) ((eq_iff s sid).0 same) d.0,
  )
  | inr other ↦
      ground (arith, other, others-without_member id ids, lookup-unsubscribe_all id m sid d.1)
]

pub unsubscribe_all-Distinct :
    (id : ClientId) (m : Subscriptions) → Distinct m → Distinct (unsubscribe_all id m)
unfolding unsubscribe_all
unsubscribe_all-Distinct id [] d = tt
unsubscribe_all-Distinct id ((s, ids) ∷ m) d =
    kept (without_member id ids) (unsubscribe_all-Distinct id m d.1)
      (lookup-unsubscribe_all id m s d.1 ∙ ap (left_by id) d.0)
  where
    kept :
        (xs : List ClientId)
        → Distinct (unsubscribe_all id m)
        → lookup s (unsubscribe_all id m) ≡ none
        → Distinct
            (elim xs [ [] ↦ unsubscribe_all id m | ◌∷◌ y ys ↦ (s, y ∷ ys) ∷ unsubscribe_all id m ])
    kept [] e new = e
    kept (y ∷ ys) e new = (new, e)

one_of-filter :
    (sid : String) (p : String → Bool) (xs : List String)
    → one_of sid (filter p xs) ≡ (one_of sid xs && p sid)
one_of-filter sid p [] = refl
one_of-filter sid p (x ∷ xs) = elim (Bool-cases (str_eq x sid)) [
  | inl same ↦
      let e = ap p ((eq_iff x sid).0 same) in ground (arith, same, e, one_of-filter sid p xs)
  | inr other ↦ ground (arith, other, one_of-filter sid p xs)
]

abbrev watches : ClientId → Option (List ClientId) → Bool
watches id none = false
watches id (some ids) = is_member id ids

one_of-sessions_of :
    (id : ClientId) (m : Subscriptions) (sid : String)
    → Distinct m
    → one_of sid (sessions_of id m) ≡ watches id (lookup sid m)
unfolding sessions_of lookup
one_of-sessions_of id [] sid d = refl
one_of-sessions_of id ((s, ids) ∷ m) sid d = elim (Bool-cases (str_eq s sid)) [
  | inl same ↦ ground (
    arith,
    same,
    one_of-sessions_of id m sid d.1,
    subst (λ k. lookup k m ≡ none) ((eq_iff s sid).0 same) d.0,
  )
  | inr other ↦ ground (arith, other, one_of-sessions_of id m sid d.1)
]

is_unwatched-others :
    (id : ClientId) (ids : List ClientId)
    → is_unwatched (unless_empty (others id ids)) ≡ all (λ y. codes_eq y id) ids
is_unwatched-others id [] = refl
is_unwatched-others id (x ∷ ids) = ground (arith, is_unwatched-others id ids)

last_watcher :
    (id : ClientId) (o : Option (List ClientId))
    → (watches id o && is_unwatched (left_by id o)) ≡ watched_only id o
last_watcher id none = refl
last_watcher id (some []) = refl
last_watcher id (some (x ∷ ids)) = ground (arith, is_unwatched-others id (x ∷ ids))

-- When a client leaves, each session keeps exactly its other watchers, and has no entry if there
-- are none; the device is told to detach exactly the sessions that only this client watched; and
-- the client is gone, while the others stay as they were.
pub leave-lookup :
    (st : Clients) (id : ClientId) (sid : String)
    → Distinct st.session_subscriptions
    → let (after, detached) = leave st id in
      let watchers = lookup sid st.session_subscriptions in
      (lookup sid after.session_subscriptions ≡ left_by id watchers)
      × (one_of sid detached ≡ watched_only id watchers)
      × ((j : ClientId)
          → lookup j after.clients ≡ (if codes_eq id j then none else lookup j st.clients))
unfolding leave
leave-lookup st id sid d = (
  lookup-unsubscribe_all id st.session_subscriptions sid d,
  one_of-filter sid (λ s. is_unwatched (lookup s (unsubscribe_all id st.session_subscriptions)))
        (sessions_of id st.session_subscriptions)
      ∙ rw
          (
            one_of-sessions_of id st.session_subscriptions sid d,
            lookup-unsubscribe_all id st.session_subscriptions sid d,
          )
          (last_watcher id (lookup sid st.session_subscriptions)),
  λ j. lookup-remove id j st.clients,
)

all-is_member :
    (id j : ClientId) (ids : List ClientId)
    → is_member id ids ≡ true
    → codes_eq id j ≡ false
    → all (λ y. codes_eq y j) ids ≡ false
all-is_member id j [] h other = absurd (ground (arith, h))
all-is_member id j (x ∷ ids) h other = elim (Bool-cases (codes_eq x id)) [
  | inl same ↦
      let e : codes_eq x j ≡ false = ap (λ y. codes_eq y j) (codes_eq→eq x id same) ∙ other in
      ground (arith, e)
  | inr differs ↦ ground (arith, all-is_member id j ids (ground (arith, h, differs)) other)
]

-- A session that another client watches is not detached when a client leaves.
pub leave-watched :
    (st : Clients) (id j : ClientId) (sid : String) {ids : List ClientId}
    → Distinct st.session_subscriptions
    → lookup sid st.session_subscriptions ≡ some ids
    → is_member id ids ≡ true
    → codes_eq id j ≡ false
    → one_of sid (leave st j).1 ≡ false
leave-watched st id j sid {ids} d found member other =
    (leave-lookup st j sid d).1 ∙ ap (watched_only j) found ∙ only ids member
  where
    only : (ids : List ClientId) → is_member id ids ≡ true → watched_only j (some ids) ≡ false
    only [] h = refl
    only (x ∷ xs) h = all-is_member id j (x ∷ xs) h other
