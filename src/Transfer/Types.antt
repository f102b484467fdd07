-- ===== src/Transfer/Types.antt =====
-- server/src/gawdxfer/types.rs: the state of a transfer, and what the manager's calls answer.
-- Instants and durations are milliseconds. Error messages for humans are left out: an error is its
-- transfer, its code and whether it is recoverable. Paths are texts.
use sctl.Prelude.{ℕ, ◌≡◌, refl, ◌⊎◌, inl, inr, Bool, true, false, List, Option, none, some, String}

pub data Direction : Type 0 where
  upload download : Direction

pub data Phase : Type 0 where
  init transferring paused verifying complete : Phase
  failed : String → Phase
  aborted : Phase

-- `Phase::as_str`
unfoldable pub as_str : Phase → String
as_str init = "init"
as_str transferring = "transferring"
as_str paused = "paused"
as_str verifying = "verifying"
as_str complete = "complete"
as_str (failed reason) = "failed"
as_str aborted = "aborted"

pub record TransferSpec : Type 0 where
  pub transfer_id : String
  pub direction : Direction
  pub path : String
  pub filename : String
  pub file_size : ℕ
  pub file_hash : String
  pub chunk_size : ℕ
  pub total_chunks : ℕ
  pub mode : Option String
  pub created_at : ℕ
  pub source_mtime : Option ℕ

pub record TransferProgress : Type 0 where
  pub phase : Phase
  pub chunks_done : List Bool
  pub bytes_transferred : ℕ
  pub last_activity : ℕ
  pub temp_path : String
  pub error_count : ℕ

pub record Transfer : Type 0 where
  pub spec : TransferSpec
  pub progress : TransferProgress

pub record TransferConfig : Type 0 where
  pub max_concurrent : ℕ
  pub chunk_size : ℕ
  pub max_file_size : ℕ
  pub stale_timeout_secs : ℕ
  pub max_chunk_retries : ℕ

-- `TransferConfig::new`
unfoldable pub config_new : ℕ → ℕ → ℕ → ℕ → TransferConfig
config_new max_concurrent chunk_size max_file_size stale_timeout_secs = record {
  max_concurrent = max_concurrent;
  chunk_size = chunk_size;
  max_file_size = max_file_size;
  stale_timeout_secs = stale_timeout_secs;
  max_chunk_retries = 3;
}

pub record TransferManager : Type 0 where
  pub transfers : List (String × Transfer)
  pub config : TransferConfig

pub data Code : Type 0 where
  invalid_path file_not_found permission_denied io_error file_too_large max_transfers : Code
  invalid_request disk_full transfer_not_found file_changed hash_mismatch : Code

pub record TransferError : Type 0 where
  pub transfer_id : String
  pub code : Code
  pub recoverable : Bool

unfoldable pub make_error : String → Code → Bool → TransferError
make_error transfer_id code recoverable = record {
  transfer_id = transfer_id;
  code = code;
  recoverable = recoverable;
}

-- What a call comes to: `panic` is a division by zero.
pub data Outcome {ℓ} (A : Type ℓ) : Type ℓ where
  ok : A → Outcome A
  err : TransferError → Outcome A
  panic : Outcome A

infixl 5 ◌>>=◌ ◌>>◌
abbrev pub ◌>>=◌ {ℓ κ} : {A : Type ℓ} {B : Type κ} → Outcome A → (A → Outcome B) → Outcome B
ok a >>= f = f a
err e >>= f = err e
panic >>= f = panic

abbrev pub ◌>>◌ {ℓ} : {B : Type ℓ} → Outcome (Unit {0}) → Outcome B → Outcome B
m >> k = m >>= λ _. k

-- `if test { return Err(e) }`
abbrev pub reject_if : Bool → TransferError → Outcome (Unit {0})
reject_if true e = err e
reject_if false e = ok tt

abbrev pub or_fail {ℓ} : {A : Type ℓ} → Option A → TransferError → Outcome A
or_fail none e = err e
or_fail (some a) e = ok a

-- The answers of the file system that the code tells apart.
pub data IoKind : Type 0 where
  not_found denied other : IoKind

pub data Io {ℓ} (A : Type ℓ) : Type ℓ where
  done : A → Io A
  fault : IoKind → Io A

-- `mtime` is the time of modification in seconds, where the platform has one.
pub record Metadata : Type 0 where
  pub is_dir : Bool
  pub len : ℕ
  pub mtime : Option ℕ

-- The calls that the code makes to change or read files, in order.
pub data FsCall : Type 0 where
  create : String → FsCall
  set_len : String → ℕ → FsCall
  read_at : String → ℕ → ℕ → FsCall
  write_at : String → ℕ → List ℕ → FsCall
  set_mode : String → ℕ → FsCall
  rename : String → String → FsCall
  remove_file : String → FsCall

-- A progress message for the subscribers.
pub record Progress : Type 0 where
  pub transfer_id : String
  pub direction : Direction
  pub path : String
  pub filename : String
  pub chunks_done : ℕ
  pub total_chunks : ℕ
  pub bytes_transferred : ℕ
  pub file_size : ℕ
  pub elapsed_ms : ℕ
  pub rate_bps : ℕ

pub record Complete : Type 0 where
  pub transfer_id : String
  pub direction : Direction
  pub path : String
  pub filename : String
  pub file_size : ℕ
  pub file_hash : String
  pub elapsed_ms : ℕ

-- What goes to the broadcast channel and to the activity log.
pub data Event : Type 0 where
  gx_progress : Progress → Event
  gx_complete : Complete → Event
  transfer_start : String → Event
  transfer_complete : String → Event

-- What holds of the value of a call that succeeds.
abbrev pub Post {ℓ} : {A : Type ℓ} → (A → Type 0) → Outcome A → Type 0
Post P (ok a) = P a
Post P (err e) = Unit
Post P panic = Unit

pub Post-map {ℓ} :
    {A : Type ℓ} (P Q : A → Type 0) (o : Outcome A) → ((a : A) → P a → Q a) → Post P o → Post Q o
Post-map P Q (ok a) f h = f a h
Post-map P Q (err e) f h = tt
Post-map P Q panic f h = tt

pub bind-Post {ℓ κ} :
    {A : Type ℓ} {B : Type κ} (P : B → Type 0) (m : Outcome A) (f : A → Outcome B)
    → ((a : A) → m ≡ ok a → Post P (f a))
    → Post P (m >>= f)
bind-Post P (ok a) f h = h a refl
bind-Post P (err e) f h = tt
bind-Post P panic f h = tt

pub reject_if-ok : (b : Bool) (e : TransferError) (u : Unit {0}) → reject_if b e ≡ ok u → b ≡ false
reject_if-ok true e u h = cc
reject_if-ok false e u h = refl

pub or_fail-ok {ℓ} :
    {A : Type ℓ} (o : Option A) (e : TransferError) (a : A) → or_fail o e ≡ ok a → o ≡ some a
or_fail-ok none e a h = cc
or_fail-ok (some b) e a h = cc

pub Outcome-cases {ℓ} :
    {A : Type ℓ} (o : Outcome A)
    → ((a : A) × (o ≡ ok a)) ⊎ (((e : TransferError) × (o ≡ err e)) ⊎ (o ≡ panic))
Outcome-cases (ok a) = inl (a, refl)
Outcome-cases (err e) = inr (inl (e, refl))
Outcome-cases panic = inr (inr refl)
