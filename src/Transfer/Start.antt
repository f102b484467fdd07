-- ===== src/Transfer/Start.antt =====
-- server/src/gawdxfer/manager.rs: the validation of requests, and the start of transfers.
-- What the file system, the clock and the id generator answer is in a record beside the request.
pub mod Upload
pub mod Validity
mod Tests
use sctl.Prelude.{
  ℕ, suc, ◌+◌, ◌-◌, ◌*◌, ◌/◌, ◌%◌, ◌^◌, max, Bool, true, false, not, ◌&&◌, ◌||◌, List, [], ◌∷◌,
  ◌++◌, Option, none, some, String, str_eq, ltb, leb, ◌==◌, if◌then◌else◌, codes, starts_with,
  contains, replicate, string_eq,
}
use sctl.Prelude.Map.{insert, count_values}
use sctl.Transfer.Types.{
  Direction, upload, download, Phase, init, transferring, TransferSpec, TransferProgress, Transfer,
  TransferConfig, TransferManager, Code, TransferError, make_error, Outcome, ok, err, panic, ◌>>=◌,
  ◌>>◌, reject_if, or_fail, IoKind, not_found, denied, other, Io, done, fault, Metadata, FsCall,
  create, set_len, remove_file, Event, transfer_start,
}

-- `none` is the division by zero of `div_ceil`; the count is cut to a `u32`.
unfoldable pub compute_chunks : ℕ → ℕ → Option ℕ
compute_chunks file_size chunk_size =
    if file_size == 0
    then some 1
    else if chunk_size == 0
    then none
    else some ((file_size + chunk_size - 1) / chunk_size % 2 ^ 32)

-- The components of a path: what stands between its slashes.
abbrev pub components_from : List ℕ → List ℕ → List (List ℕ)
components_from cur [] = cur ∷ []
components_from cur (c ∷ s) =
    if c == b'/' then cur ∷ components_from [] s else components_from (cur ++ (c ∷ [])) s

abbrev pub components : List ℕ → List (List ℕ)
components s = components_from [] s

-- `Component::ParentDir`
abbrev pub is_parent_dir : List ℕ → Bool
is_parent_dir [] = false
is_parent_dir (a ∷ []) = false
is_parent_dir (a ∷ b ∷ []) = a == b'.' && b == b'.'
is_parent_dir (a ∷ b ∷ c ∷ s) = false

abbrev pub any_parent_dir : List (List ℕ) → Bool
any_parent_dir [] = false
any_parent_dir (c ∷ cs) = if is_parent_dir c then true else any_parent_dir cs

unfoldable pub validate_transfer_path : String → Outcome String
validate_transfer_path path = do
  reject_if (not (starts_with (b'/' ∷ []) (codes path))) (make_error "" Code.invalid_path false)
  reject_if (contains 0 (codes path)) (make_error "" Code.invalid_path false)
  reject_if (any_parent_dir (components (codes path))) (make_error "" Code.invalid_path false)
  ok path

io_code : IoKind → Code
io_code not_found = Code.file_not_found
io_code denied = Code.permission_denied
io_code other = Code.io_error

-- `tokio::fs::metadata(..)`, with its errors
unfoldable pub stat : Io Metadata → Outcome Metadata
unfolding io_code
stat (done m) = ok m
stat (fault k) = err (make_error "" (io_code k) false)

-- `matches!(phase, Phase::Init | Phase::Transferring)`
abbrev pub is_active : Phase → Bool
is_active init = true
is_active transferring = true
is_active _ = false

abbrev pub active : TransferManager → ℕ
active m = count_values (λ t. is_active t.progress.phase) m.transfers

-- The check of the limit, under the read lock.
unfoldable pub check_limit : TransferManager → Outcome (Unit {0})
check_limit m =
    reject_if (leb m.config.max_concurrent (active m)) (make_error "" Code.max_transfers true)

-- `statvfs`: the free space, if the call works.
unfoldable pub check_disk_space : Option ℕ → ℕ → Outcome (Unit {0})
check_disk_space none required = ok tt
check_disk_space (some available) required =
    reject_if (ltb available (required + required / 10)) (make_error "" Code.disk_full false)

fresh_progress : ℕ → ℕ → String → TransferProgress
fresh_progress total now temp_path = record {
  phase = transferring;
  chunks_done = replicate total false;
  bytes_transferred = 0;
  last_activity = now;
  temp_path = temp_path;
  error_count = 0;
}

pub record DownloadAnswers : Type 0 where
  pub metadata : Io Metadata
  pub hash_file : Io String
  pub file_name : Option String
  pub uuid : String
  pub now : ℕ

pub record InitDownloadResult : Type 0 where
  pub transfer_id : String
  pub file_size : ℕ
  pub file_hash : String
  pub chunk_size : ℕ
  pub total_chunks : ℕ
  pub filename : String

abbrev pub unwrap_or {ℓ} : {A : Type ℓ} → Option A → A → A
unwrap_or none d = d
unwrap_or (some a) d = a

hashed : Io String → Outcome String
hashed (done h) = ok h
hashed (fault k) = err (make_error "" Code.io_error false)

-- The chunk count, or the panic of a chunk size of 0.
unfoldable pub counted : Option ℕ → Outcome ℕ
counted none = panic
counted (some n) = ok n

download_of : String → ℕ → String → ℕ → ℕ → DownloadAnswers → Option ℕ → Transfer
unfolding fresh_progress
download_of path file_size file_hash chunk_size total a mtime = record {
  spec = record {
    transfer_id = a.uuid;
    direction = download;
    path = path;
    filename = unwrap_or a.file_name "download";
    file_size = file_size;
    file_hash = file_hash;
    chunk_size = chunk_size;
    total_chunks = total;
    mode = none;
    created_at = a.now;
    source_mtime = mtime;
  };
  progress = fresh_progress total a.now "";
}

unfoldable pub init_download :
    TransferManager
    → String
    → Option ℕ
    → DownloadAnswers
    → Outcome (TransferManager × InitDownloadResult × List Event)
unfolding stat hashed counted download_of
init_download m path chunk_size a = do
  validated ← validate_transfer_path path
  meta ← stat a.metadata
  reject_if meta.is_dir (make_error "" Code.invalid_path false)
  reject_if (ltb m.config.max_file_size meta.len) (make_error "" Code.file_too_large false)
  check_limit m
  let size = unwrap_or chunk_size m.config.chunk_size
  total ← counted (compute_chunks meta.len size)
  file_hash ← hashed a.hash_file
  let t = download_of validated meta.len file_hash size total a meta.mtime
  ok (
    record m { transfers = insert a.uuid t m.transfers },
    record {
      transfer_id = a.uuid;
      file_size = meta.len;
      file_hash = file_hash;
      chunk_size = size;
      total_chunks = total;
      filename = t.spec.filename;
    },
    transfer_start a.uuid ∷ [],
  )
