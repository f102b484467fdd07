-- ===== src/Activity/Cache/Tests.antt =====
-- server/src/activity.rs: a run of the cache of exec results.
use sctl.Prelude.{ℕ, ◌≡◌, refl, List, [], ◌∷◌, none, some, String, arith}
use sctl.Prelude.Map.{lookup, insert, remove}
use sctl.Activity.Cache.{CachedExecResult, new, store, get, evict}
use sctl.Activity.Cache.Eviction.{store_all, NewIds, get-store_all}

abbrev result : ℕ → String → CachedExecResult
result id out = record {
  activity_id = id;
  exit_code = 0;
  stdout = out;
  stderr = "";
  duration_ms = 12;
  command = "date";
  status = "ok";
  error_message = none;
}

abbrev results : List CachedExecResult
results = result 4 "a" ∷ result 7 "b" ∷ result 9 "c" ∷ []

-- The oldest of three results has left a cache of size 2.
evicts_oldest :
    (get (store_all (new 2) results) 4 ≡ none)
    × (get (store_all (new 2) results) 9 ≡ some (result 9 "c"))
unfolding get store evict new lookup insert remove
evicts_oldest = (refl, refl)

results-NewIds : NewIds [] results
results-NewIds = ground arith

get-store_all_example : get (store_all (new 2) results) 7 ≡ some (result 7 "b")
get-store_all_example = get-store_all 2 results 7 results-NewIds
