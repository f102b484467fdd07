-- ===== src/Supervisor.antt =====
-- server/src/supervisor.rs: the detection of a crash loop. Instants are milliseconds; the file that
-- is written is an effect, of which the model says whether it happens.
pub mod Window
mod Tests
use sctl.Prelude.{
  All, ℕ, ◌+◌, ◌-◌, ◌*◌, ◌≤◌, ◌≡◌, refl, sym, ap, ◌∙◌, min, List, [], ◌∷◌, ◌++◌, Bool, true, false,
  not, arith, ltb, leb, if◌then◌else◌, if-cases, length, filter,
}

abbrev pub crash_loop_threshold : ℕ
crash_loop_threshold = 3

abbrev pub crash_loop_window : ℕ
crash_loop_window = 180000

abbrev pub safe_mode_backoff_secs : ℕ
safe_mode_backoff_secs = 300

-- The crashes at the front that are too old are dropped, up to the first that is not.
unfoldable pub drop_old : ℕ → List ℕ → List ℕ
drop_old now [] = []
drop_old now (t ∷ ts) =
    let rest = drop_old now ts in if ltb crash_loop_window (now - t) then rest else t ∷ ts

pub record Crash : Type 0 where
  pub history : List ℕ
  pub engaged : Bool
  pub flag_written : Bool
  pub backoff : ℕ

unfoldable pub record_crash_and_pick_backoff : List ℕ → Bool → ℕ → ℕ → Crash
unfolding drop_old
record_crash_and_pick_backoff history engaged normal_backoff now =
    let kept = drop_old now (history ++ (now ∷ [])) in
    if leb crash_loop_threshold (length kept)
    then record {
      history = kept;
      engaged = true;
      flag_written = true;
      backoff = safe_mode_backoff_secs;
    }
    else record {
      history = kept;
      engaged = engaged;
      flag_written = false;
      backoff = normal_backoff;
    }

-- The history after crashes at the instants.
unfoldable pub crashes : List ℕ → List ℕ → List ℕ
unfolding record_crash_and_pick_backoff
crashes history [] = history
crashes history (t ∷ ts) = crashes (record_crash_and_pick_backoff history false 1 t).history ts
