-- ===== src/Infra/Monitor.antt =====
-- server/src/infra/monitor.rs: the body of the monitoring loop.
use sctl.Prelude.{
  add_u32, saturating_add_u32, ℕ, ◌-◌, ◌^◌, Bool, true, false, not, ◌&&◌, List, ◌++◌, Option, none,
  some, String, leb, ltb, if◌then◌else◌, take, get_elem?, codes, string_eq,
}
use sctl.Prelude.Map.{lookup, insert, remove}
use sctl.Infra.Types.{
  TargetStatus, unknown, up, degraded, down, RecoveryConfig, InfraTarget, InfraConfig, CheckResult,
  TargetState, InfraState, push_recovery_log,
}

abbrev pub ok_count : Option TargetState → ℕ
ok_count none = 0
ok_count (some s) = s.consecutive_ok

abbrev pub fail_count : Option TargetState → ℕ
fail_count none = 0
fail_count (some s) = s.consecutive_fail

-- `latency_ms.is_some_and(|ms| ms > threshold)`
abbrev pub is_slow : CheckResult → ℕ → Bool
is_slow r threshold = elim r.latency_ms [ none ↦ false | some ms ↦ ltb threshold ms ]

unfoldable pub compute_status :
    TargetStatus → CheckResult → ℕ → ℕ → ℕ → Option TargetState → TargetStatus
compute_status unknown r threshold down_after up_after current = if r.is_ok then up else degraded
compute_status up r threshold down_after up_after current =
    if not r.is_ok then degraded else if is_slow r threshold then degraded else up
compute_status degraded r threshold down_after up_after current =
    if r.is_ok && leb up_after (add_u32 (ok_count current) 1)
    then up
    else if not r.is_ok && leb down_after (add_u32 (fail_count current) 1)
    then down
    else degraded
compute_status down r threshold down_after up_after current =
    if r.is_ok && leb up_after (add_u32 (ok_count current) 1) then up else down

abbrev pub status_of : Option TargetState → TargetStatus
status_of none = unknown
status_of (some s) = s.status

unfoldable pub same_status : TargetStatus → TargetStatus → Bool
same_status unknown unknown = true
same_status up up = true
same_status degraded degraded = true
same_status down down = true
same_status _ _ = false

-- The target's new state after a check, from its current one.
unfoldable pub observe : InfraTarget → Option TargetState → CheckResult → String → TargetState
unfolding compute_status same_status
observe t current r stamp =
    let prev = status_of current in
    let status =
      compute_status prev r t.degraded_threshold_ms t.down_after_consecutive t.up_after_consecutive
        current in
    record {
      status = status;
      latency_ms = r.latency_ms;
      since =
          if same_status status prev
          then elim current [ none ↦ stamp | some s ↦ s.since ]
          else stamp;
      consecutive_ok = if r.is_ok then saturating_add_u32 (ok_count current) 1 else 0;
      consecutive_fail = if r.is_ok then 0 else saturating_add_u32 (fail_count current) 1;
      last_check = stamp;
      detail = r.detail;
      name = t.name;
    }

-- What running the recovery command comes to: its exit code and output, or an error.
pub data Ran : Type 0 where
  exited : ℕ → List ℕ → Ran
  failed : List ℕ → Ran

-- The exit code as the bit pattern of an `i32`, and the output; -1 for an error.
abbrev pub exit_and_stdout : Ran → ℕ × List ℕ
exit_and_stdout (exited code out) = (code, out)
exit_and_stdout (failed e) = (2 ^ 32 - 1, codes "ERROR: " ++ e)

-- A byte inside a character of several bytes, in UTF-8.
abbrev pub is_continuation : ℕ → Bool
is_continuation b = leb 128 b && ltb b 192

-- `&stdout[..512]` panics (`none`) unless byte 512, if there is one, starts a character.
abbrev pub cut_at : Option ℕ → List ℕ → Option (List ℕ)
cut_at none out = some out
cut_at (some b) out = if is_continuation b then none else some (take 512 out ++ codes "...")

unfoldable pub truncate_stdout : List ℕ → Option (List ℕ)
truncate_stdout out = cut_at (get_elem? out 512) out

abbrev pub tracked : InfraState → String → ℕ × ℕ
tracked s id = elim (lookup id s.recovery_tracker) [ none ↦ (0, 0) | some e ↦ e ]

-- Whether the command is run now: the retries are not used up and the cooldown is over.
unfoldable pub may_recover : InfraState → String → RecoveryConfig → ℕ → Bool
may_recover s id c now =
    let (last_exec, count) = tracked s id in
    not (leb c.max_retries count) && not (ltb (now - last_exec) c.cooldown_secs)

-- What an execution leaves: its log entry, and its time and count. `none` is the panic of the
-- truncation.
unfoldable pub after_run :
    InfraState → String → RecoveryConfig → ℕ → String → ℕ → Option (List ℕ) → Option InfraState
after_run s id c now stamp exit_code none = none
after_run s id c now stamp exit_code (some out) =
    let logged = push_recovery_log s (record {
      ts = stamp;
      target_id = id;
      command = c.command;
      exit_code = exit_code;
      stdout = out;
    }) in
    some (record logged {
      recovery_tracker = insert id (now, add_u32 (tracked s id).1 1) s.recovery_tracker;
    })

unfoldable pub try_recovery :
    InfraState → String → RecoveryConfig → ℕ → String → Ran → Option InfraState
unfolding may_recover
try_recovery s id c now stamp ran =
    if may_recover s id c now
    then (let (exit_code, stdout) = exit_and_stdout ran in
        after_run s id c now stamp exit_code (truncate_stdout stdout))
    else some s

abbrev pub is_down : TargetStatus → Bool
is_down down = true
is_down _ = false

abbrev pub is_up : TargetStatus → Bool
is_up up = true
is_up _ = false

unfoldable pub recover_if :
    Bool → InfraState → String → Option RecoveryConfig → ℕ → String → Ran → Option InfraState
recover_if false s id r now stamp ran = some s
recover_if true s id none now stamp ran = some s
recover_if true s id (some c) now stamp ran =
    if c.enabled then try_recovery s id c now stamp ran else some s

-- A target that has come back up starts again with no executions.
unfoldable pub reset_if : Bool → String → Option InfraState → Option InfraState
reset_if b id none = none
reset_if false id (some s) = some s
reset_if true id (some s) = some (record s { recovery_tracker = remove id s.recovery_tracker })

-- What the loop does with the result of a check of a target that is due.
unfoldable pub record_check :
    InfraState → InfraConfig → InfraTarget → CheckResult → ℕ → String → Ran → Option InfraState
unfolding recover_if
record_check s cfg t r now stamp ran =
    let current = lookup t.id s.targets in
    let next = observe t current r stamp in
    let updated = record s {
      targets = insert t.id next s.targets;
      ts = stamp;
      config_version = cfg.version;
    } in
    reset_if (is_up next.status && is_down (status_of current)) t.id
      (recover_if (is_down next.status) updated t.id t.recovery now stamp ran)

-- Whether a target is due: `last` is the time of its last check, 0 if there was none.
unfoldable pub is_due : InfraConfig → InfraTarget → ℕ → ℕ → Bool
is_due cfg t last now =
    not (ltb (now - last) (elim t.interval_secs [ none ↦ cfg.check_interval_secs | some n ↦ n ]))
