-- ===== src/Infra/Tests.antt =====
-- server/src/infra: runs of the monitor, and instances of its laws.
use sctl.Prelude.{
  String, ℕ, ◌≡◌, ◌≢◌, refl, Bool, true, false, List, [], ◌∷◌, none, some, arith, replicate,
  string_eq, length,
}
use sctl.Prelude.Map.{map_option, insert, lookup}
use sctl.Infra.Types.{
  TargetStatus, unknown, up, degraded, down, RecoveryConfig, InfraTarget, InfraConfig, InfraState,
  display, new, push_recovery_log,
}
use sctl.Infra.Monitor.{
  exited, compute_status, same_status, observe, compute_status, same_status, status_of, may_recover,
  tracked, truncate_stdout, after_run, try_recovery, recover_if, reset_if, record_check, is_due,
}
use sctl.Infra.Status.{Check, watch, watch-reaches_down}
use sctl.Infra.Recovery.{Limited}
use sctl.Infra.Retrying.{runs, Recorded, Reached, record_check-Limited}

abbrev recovery : RecoveryConfig
recovery = record { enabled = true; command = "ifup wan"; cooldown_secs = 60; max_retries = 3 }

abbrev target : InfraTarget
target = record {
  id = "wan";
  name = "Uplink";
  degraded_threshold_ms = 100;
  down_after_consecutive = 3;
  up_after_consecutive = 2;
  interval_secs = none;
  recovery = some recovery;
}

abbrev config : InfraConfig
config = record { version = 1; check_interval_secs = 30; targets = target ∷ [] }

abbrev check : Bool → ℕ → Check
check is_ok ms =
    (record { is_ok = is_ok; latency_ms = some ms; detail = ""; http_status = none }, "now")

abbrev good : Check
good = check true 10

abbrev slow : Check
slow = check true 500

abbrev bad : Check
bad = check false 10

abbrev status_after : List Check → TargetStatus
status_after cs = status_of (watch target cs)

names :
    (display unknown ≡ "unknown")
    × (display up ≡ "up")
    × (display degraded ≡ "degraded")
    × (display down ≡ "down")
unfolding display
names = (refl, refl, refl, refl)

-- Two failures after a success are not enough, the third is; and one success does not bring it back.
history :
    (status_after (bad ∷ bad ∷ good ∷ []) ≡ degraded)
    × (status_after (bad ∷ bad ∷ bad ∷ good ∷ []) ≡ down)
    × (status_after (good ∷ bad ∷ bad ∷ bad ∷ good ∷ []) ≡ down)
    × (status_after (good ∷ good ∷ bad ∷ bad ∷ bad ∷ good ∷ []) ≡ up)
    × (status_after (slow ∷ good ∷ []) ≡ degraded)
    × (status_after (slow ∷ slow ∷ good ∷ []) ≡ up)
    × (status_after (slow ∷ slow ∷ slow ∷ good ∷ []) ≡ degraded)
unfolding observe compute_status same_status
history = (refl, refl, refl, refl, refl, refl, refl)

abbrev was : List Check
was = bad ∷ bad ∷ good ∷ []

was-not_down : status_after was ≢ down
unfolding observe compute_status same_status
was-not_down e = cc

now-down : status_after (bad ∷ was) ≡ down
unfolding observe compute_status same_status
now-down = refl

back-not_down : status_after (good ∷ good ∷ bad ∷ was) ≢ down
unfolding observe compute_status same_status
back-not_down e = cc

still-down : status_after (good ∷ bad ∷ was) ≡ down
unfolding observe compute_status same_status
still-down = refl

watch-reaches_down_example : status_after (bad ∷ was) ≡ down
watch-reaches_down_example =
    watch-reaches_down target (bad ∷ was) (omega arith) (omega arith) (omega arith)

was-up : status_after (good ∷ []) ≡ up
unfolding observe compute_status same_status
was-up = refl

abbrev fresh : InfraState
fresh = record {
  ts = "";
  config_version = 0;
  targets = [];
  recovery_log = [];
  recovery_tracker = [];
}

new_example : new "" ≡ fresh
unfolding new
new_example = refl

abbrev long_output : List ℕ
long_output = replicate 600 130

-- The command runs after the cooldown, and not before.
recovers :
    (may_recover fresh "wan" recovery 100 ≡ true)
    × (may_recover (record fresh { recovery_tracker = ("wan", (100, 1)) ∷ [] }) "wan" recovery 130
        ≡ false)
    × (may_recover (record fresh { recovery_tracker = ("wan", (100, 3)) ∷ [] }) "wan" recovery 900
        ≡ false)
unfolding may_recover lookup
recovers = (refl, refl, refl)

due : (is_due config target 100 120 ≡ false) × (is_due config target 100 130 ≡ true)
unfolding is_due
due = (refl, refl)

abbrev sinking : InfraState
sinking = record fresh {
  targets =
      (
        "wan",
        record {
          status = degraded;
          latency_ms = none;
          since = "";
          consecutive_ok = 0;
          consecutive_fail = 2;
          last_check = "";
          detail = "";
          name = "Uplink";
        },
      )
      ∷ [];
}

record_check-Limited_example :
    Reached
      (λ after.
        Limited (λ id. 3) after
        × Recorded "wan" 100 sinking
            (runs down (some recovery) (tracked sinking "wan") 100)
            false
            after)
      (record_check sinking config target bad.0 100 "now" (exited 0 []))
unfolding observe compute_status same_status lookup
record_check-Limited_example =
    record_check-Limited (λ id. 3) sinking config target bad.0 100 "now" (exited 0 []) (omega arith)
      (omega arith) (record { retries = λ id. omega arith; logged = omega arith })

-- That execution is due.
due_now : runs down (some recovery) (tracked sinking "wan") 100 ≡ true
unfolding lookup
due_now = refl

-- The check that takes a target down runs its command, unless the output cannot be cut.
runs_command :
    (map_option {W = List (String × (ℕ × ℕ)) × ℕ}
        (λ s. (s.recovery_tracker, length s.recovery_log))
        (record_check sinking config target bad.0 100 "now" (exited 0 []))
      ≡ some (("wan", (100, 1)) ∷ [], 1))
    × (record_check sinking config target bad.0 100 "now" (exited 0 long_output) ≡ none)
unfolding record_check observe compute_status same_status recover_if reset_if try_recovery
    may_recover truncate_stdout after_run push_recovery_log lookup insert
runs_command = (refl, refl)
