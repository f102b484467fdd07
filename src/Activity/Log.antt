-- ===== src/Activity/Log.antt =====
-- server/src/activity.rs, `ActivityLog`. JSON values come from a library: `Value` is a parameter,
-- with the one question that the log asks of it, `d["session_id"].as_str()`.
pub mod History
mod Tests
use sctl.Prelude.{
  ◌≡◌, refl, ℕ, ◌+◌, ◌%◌, ◌^◌, Bool, true, false, List, [], ◌∷◌, Option, none, some, String, str_eq,
  ltb, ◌&&◌, if◌then◌else◌, take, filter,
}
use sctl.Activity.Types.{ActivityType, ActivitySource, same_type, same_source}
use sctl.Prelude.Ring.{push_bounded}

-- `activity_type.is_none_or(|t| e.activity_type == t)`
abbrev pub is_none_or {ℓ} : {A : Type ℓ} → (A → Bool) → Option A → Bool
is_none_or p none = true
is_none_or p (some a) = p a

abbrev pub is_some_and {ℓ} : {A : Type ℓ} → (A → Bool) → Option A → Bool
is_some_and p none = false
is_some_and p (some a) = p a

pub record ActivityEntry (Value : Type 0) : Type 0 where
  pub id : ℕ
  pub timestamp : ℕ
  pub activity_type : ActivityType
  pub source : ActivitySource
  pub summary : String
  pub detail : Option Value
  pub request_id : Option String

pub record ActivityLog (Value : Type 0) : Type 0 where
  pub entries : List (ActivityEntry Value)
  pub next_id : ℕ
  pub max_entries : ℕ

-- The arguments of a call of `log`, the clock's reading among them.
pub record Activity (Value : Type 0) : Type 0 where
  pub timestamp : ℕ
  pub activity_type : ActivityType
  pub source : ActivitySource
  pub summary : String
  pub detail : Option Value
  pub request_id : Option String

module _ {Value : Type 0} where
  pub new : ℕ → ActivityLog Value
  new max_entries = record { entries = []; next_id = 1; max_entries = max_entries }

  abbrev pub entry_of : ℕ → Activity Value → ActivityEntry Value
  entry_of n a = record {
    id = n;
    timestamp = a.timestamp;
    activity_type = a.activity_type;
    source = a.source;
    summary = a.summary;
    detail = a.detail;
    request_id = a.request_id;
  }

  -- Returns the log, the id, and the entry that is broadcast. The calls come one after the other:
  -- between `fetch_add` and the write lock another call may run in the source.
  pub log : ActivityLog Value → Activity Value → ActivityLog Value × ℕ × ActivityEntry Value
  log l a =
      let id = l.next_id in
      let entry = entry_of id a in
      (
        record l {
          next_id = (l.next_id + 1) % 2 ^ 64;
          entries = push_bounded l.max_entries l.entries entry;
        },
        id,
        entry,
      )

  pub read_since : ActivityLog Value → ℕ → ℕ → List (ActivityEntry Value)
  read_since l since_id limit = take limit (filter (λ e. ltb since_id e.id) l.entries)

  module _ (session_id_of : Value → Option String) where
    -- Whether the entry's detail names the session.
    pub in_session : String → ActivityEntry Value → Bool
    in_session sid e = elim e.detail [
      | none ↦ false
      | some d ↦ is_some_and (λ s. str_eq s sid) (session_id_of d)
    ]

    pub read_since_filtered :
        ActivityLog Value
        → ℕ
        → ℕ
        → Option ActivityType
        → Option ActivitySource
        → Option String
        → List (ActivityEntry Value)
    unfolding in_session
    read_since_filtered l since_id limit activity_type source session_id =
        let newer = filter (λ e. ltb since_id e.id) l.entries in
        let typed =
          filter (λ e. is_none_or (λ t. same_type e.activity_type t) activity_type) newer in
        let sourced = filter (λ e. is_none_or (λ s. same_source e.source s) source) typed in
        let named = filter (λ e. is_none_or (λ sid. in_session sid e) session_id) sourced in
        take limit named
