-- ===== src/Activity/Cache.antt =====
-- server/src/activity.rs, `ExecResultsCache`: the last exec results by activity id.
pub mod Eviction
mod Tests
use sctl.Prelude.{
  ℕ, Bool, List, [], ◌∷◌, ◌++◌, Option, none, some, String, leb, if◌then◌else◌, length, pop_front,
  front, nat_eq,
}
use sctl.Prelude.Map.{lookup, insert, remove}

-- `status` is "ok", "timeout" or "error"; `exit_code` an `i32` as its bit pattern.
pub record CachedExecResult : Type 0 where
  pub activity_id : ℕ
  pub exit_code : ℕ
  pub stdout : String
  pub stderr : String
  pub duration_ms : ℕ
  pub command : String
  pub status : String
  pub error_message : Option String

pub record ExecResultsCache : Type 0 where
  pub order : List ℕ
  pub results : List (ℕ × CachedExecResult)
  pub max_entries : ℕ

pub new : ℕ → ExecResultsCache
new max_entries = record { order = []; results = []; max_entries = max_entries }

-- The source's `if len >= max { if let Some(old) = order.pop_front() { map.remove(&old) } }`.
evict : ExecResultsCache → ExecResultsCache
evict c =
    if leb c.max_entries (length c.order)
    then elim (front c.order) [
      | none ↦ c
      | some old ↦ record c { order = pop_front c.order; results = remove old c.results }
    ]
    else c

pub store : ExecResultsCache → CachedExecResult → ExecResultsCache
unfolding evict
store c r =
    let c' = evict c in
    record c' {
      order = c'.order ++ (r.activity_id ∷ []);
      results = insert r.activity_id r c'.results;
    }

pub get : ExecResultsCache → ℕ → Option CachedExecResult
get c id = lookup id c.results
