-- ===== src/Infra/Types.antt =====
-- server/src/infra/mod.rs: the state of the monitor. Time stamps for humans are texts that the
-- caller provides; what a check or a recovery command prints is a list of bytes.
use sctl.Prelude.{ℕ, Bool, List, Option, String, []}
use sctl.Prelude.Ring.{push_bounded}

pub data TargetStatus : Type 0 where
  unknown up degraded down : TargetStatus

-- `Display for TargetStatus`
unfoldable pub display : TargetStatus → String
display unknown = "unknown"
display up = "up"
display degraded = "degraded"
display down = "down"

pub record RecoveryConfig : Type 0 where
  pub enabled : Bool
  pub command : String
  pub cooldown_secs : ℕ
  pub max_retries : ℕ

-- The check itself (`CheckSpec`) is run by the caller, which provides its result.
pub record InfraTarget : Type 0 where
  pub id : String
  pub name : String
  pub degraded_threshold_ms : ℕ
  pub down_after_consecutive : ℕ
  pub up_after_consecutive : ℕ
  pub interval_secs : Option ℕ
  pub recovery : Option RecoveryConfig

pub record InfraConfig : Type 0 where
  pub version : ℕ
  pub check_interval_secs : ℕ
  pub targets : List InfraTarget

pub record CheckResult : Type 0 where
  pub is_ok : Bool
  pub latency_ms : Option ℕ
  pub detail : String
  pub http_status : Option ℕ

pub record TargetState : Type 0 where
  pub status : TargetStatus
  pub latency_ms : Option ℕ
  pub since : String
  pub consecutive_ok : ℕ
  pub consecutive_fail : ℕ
  pub last_check : String
  pub detail : String
  pub name : String

pub record RecoveryLogEntry : Type 0 where
  pub ts : String
  pub target_id : String
  pub command : String
  pub exit_code : ℕ
  pub stdout : List ℕ

-- The fields of `InfraState` that the loop reads and writes, with those of `InfraResults` in place.
-- `recovery_tracker` maps a target to the time of the last execution and the number of them.
pub record InfraState : Type 0 where
  pub ts : String
  pub config_version : ℕ
  pub targets : List (String × TargetState)
  pub recovery_log : List RecoveryLogEntry
  pub recovery_tracker : List (String × (ℕ × ℕ))

unfoldable pub new : String → InfraState
new stamp = record {
  ts = stamp;
  config_version = 0;
  targets = [];
  recovery_log = [];
  recovery_tracker = [];
}

abbrev pub max_recovery_log : ℕ
max_recovery_log = 50

unfoldable pub push_recovery_log : InfraState → RecoveryLogEntry → InfraState
push_recovery_log s e = record s { recovery_log = push_bounded max_recovery_log s.recovery_log e }
