-- ===== src/Transfer/Lifecycle.antt =====
-- server/src/gawdxfer/manager.rs: resume, abort, status, list, and the maintenance of transfers.
use sctl.Prelude.{
  ℕ, suc, ◌-◌, ◌*◌, Bool, true, false, not, ◌&&◌, List, [], ◌∷◌, ◌++◌, map, none, some, String,
  str_eq, ltb, if◌then◌else◌, string_eq,
}
use sctl.Prelude.Map.{lookup, insert, remove, map_values, filter_keys}
use sctl.Transfer.Types.{
  Direction, Phase, transferring, paused, complete, failed, aborted, as_str, Transfer,
  TransferManager, Code, make_error, Outcome, ok, ◌>>=◌, ◌>>◌, reject_if, FsCall, remove_file,
}
use sctl.Transfer.Start.{is_active}
use sctl.Transfer.Chunks.{find_transfer, can_serve, with_phase, chunks_done_count}

pub record ResumeResult : Type 0 where
  pub transfer_id : String
  pub direction : Direction
  pub chunks_received : List ℕ
  pub total_chunks : ℕ
  pub chunk_size : ℕ
  pub file_size : ℕ
  pub file_hash : String

-- The indices, from `i` on, of the chunks that are done.
unfoldable pub received_from : ℕ → List Bool → List ℕ
received_from i [] = []
received_from i (b ∷ bs) = if b then i ∷ received_from (suc i) bs else received_from (suc i) bs

unfoldable pub resumed : Transfer → ℕ → Transfer
resumed t now = record t {
  progress = record (t.progress) { phase = transferring; last_activity = now };
}

unfoldable pub resume : TransferManager → String → ℕ → Outcome (TransferManager × ResumeResult)
unfolding resumed received_from
resume m id now = do
  t ← find_transfer m id
  reject_if (not (can_serve t.progress.phase)) (make_error id Code.invalid_request false)
  ok (
    record m { transfers = insert id (resumed t now) m.transfers },
    record {
      transfer_id = id;
      direction = t.spec.direction;
      chunks_received = received_from 0 t.progress.chunks_done;
      total_chunks = t.spec.total_chunks;
      chunk_size = t.spec.chunk_size;
      file_size = t.spec.file_size;
      file_hash = t.spec.file_hash;
    },
  )

-- `remove_file`, where there is a temporary path.
abbrev pub cleanup : Transfer → List FsCall
cleanup t = if str_eq t.progress.temp_path "" then [] else remove_file t.progress.temp_path ∷ []

unfoldable pub abort : TransferManager → String → Outcome (TransferManager × List FsCall)
abort m id = do
  t ← find_transfer m id
  ok (record m { transfers = insert id (with_phase t aborted) m.transfers }, cleanup t)

pub record StatusResult : Type 0 where
  pub transfer_id : String
  pub direction : Direction
  pub phase : String
  pub filename : String
  pub file_size : ℕ
  pub chunks_done : ℕ
  pub total_chunks : ℕ
  pub bytes_transferred : ℕ
  pub elapsed_ms : ℕ
  pub error_count : ℕ

unfoldable pub status : TransferManager → String → ℕ → Outcome StatusResult
status m id now = do
  t ← find_transfer m id
  ok (record {
    transfer_id = id;
    direction = t.spec.direction;
    phase = as_str t.progress.phase;
    filename = t.spec.filename;
    file_size = t.spec.file_size;
    chunks_done = chunks_done_count t;
    total_chunks = t.spec.total_chunks;
    bytes_transferred = t.progress.bytes_transferred;
    elapsed_ms = now - t.spec.created_at;
    error_count = t.progress.error_count;
  })

pub record TransferSummary : Type 0 where
  pub transfer_id : String
  pub direction : Direction
  pub filename : String
  pub file_size : ℕ
  pub phase : String
  pub chunks_done : ℕ
  pub total_chunks : ℕ
  pub bytes_transferred : ℕ

pub summary : Transfer → TransferSummary
summary t = record {
  transfer_id = t.spec.transfer_id;
  direction = t.spec.direction;
  filename = t.spec.filename;
  file_size = t.spec.file_size;
  phase = as_str t.progress.phase;
  chunks_done = chunks_done_count t;
  total_chunks = t.spec.total_chunks;
  bytes_transferred = t.progress.bytes_transferred;
}

unfoldable pub list : TransferManager → List TransferSummary
unfolding summary
list m = map (λ kt. summary kt.1) m.transfers

unfoldable pub pause : Transfer → Transfer
pause t = if is_active t.progress.phase then with_phase t paused else t

unfoldable pub pause_all : TransferManager → TransferManager
unfolding pause
pause_all m = record m { transfers = map_values pause m.transfers }

-- `matches!(phase, Paused | Failed(_) | Aborted | Complete)`
abbrev pub can_sweep : Phase → Bool
can_sweep paused = true
can_sweep (failed _) = true
can_sweep aborted = true
can_sweep complete = true
can_sweep _ = false

-- `elapsed() > timeout`; times are milliseconds and the timeout is in seconds.
unfoldable pub is_stale : TransferManager → ℕ → Transfer → Bool
is_stale m now t =
    can_sweep t.progress.phase
    && ltb (m.config.stale_timeout_secs * 1000) (now - t.progress.last_activity)

-- The loop over the stale ids: the ids that are removed, and the calls that clean up.
unfoldable pub remove_each :
    List String → List (String × Transfer) → List (String × Transfer) × List String × List FsCall
remove_each [] m = (m, [], [])
remove_each (id ∷ ids) m =
    let (m', removed, calls) = remove_each ids (remove id m) in
    elim (lookup id m) [
      | none ↦ (m', removed, calls)
      | some t ↦ (m', id ∷ removed, cleanup t ++ calls)
    ]

unfoldable pub sweep_stale : TransferManager → ℕ → TransferManager × List String × List FsCall
unfolding remove_each
sweep_stale m now =
    let stale = filter_keys (is_stale m now) m.transfers in
    let (left, removed, calls) = remove_each stale m.transfers in
    (record m { transfers = left }, removed, calls)
