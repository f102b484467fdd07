-- ===== src/Transfer/Chunks.antt =====
-- server/src/gawdxfer/manager.rs: the chunks of a download. The manager holds no lock while it does
-- I/O, so a call is a check of the state, the I/O, and a commit that looks the transfer up again.
pub mod Upload
pub mod Finalize
pub mod Receive
use sctl.Prelude.{
  ℕ, ◌+◌, ◌-◌, ◌*◌, ◌/◌, ◌%◌, ◌^◌, min, Bool, true, false, not, List, [], ◌∷◌, Option, none, some,
  String, leb, ◌==◌, if◌then◌else◌, set, count, all, string_eq,
}
use sctl.Prelude.Map.{lookup, insert}
use sctl.Transfer.Types.{
  Direction, upload, download, Phase, transferring, paused, complete, Transfer, TransferManager,
  Code, TransferError, make_error, Outcome, ok, err, panic, ◌>>=◌, ◌>>◌, reject_if, or_fail, Io,
  done, fault, Metadata, FsCall, read_at, Progress, Complete, Event, gx_progress, gx_complete,
  transfer_complete,
}

abbrev pub id_of : Bool → Bool
id_of b = b

abbrev pub chunks_done_count : Transfer → ℕ
chunks_done_count t = count id_of t.progress.chunks_done

unfoldable pub progress_snapshot : Transfer → ℕ → Progress
progress_snapshot t now =
    let elapsed_ms = now - t.spec.created_at in
    record {
      transfer_id = t.spec.transfer_id;
      direction = t.spec.direction;
      path = t.spec.path;
      filename = t.spec.filename;
      chunks_done = chunks_done_count t;
      total_chunks = t.spec.total_chunks;
      bytes_transferred = t.progress.bytes_transferred;
      file_size = t.spec.file_size;
      elapsed_ms = elapsed_ms;
      rate_bps =
          if elapsed_ms == 0 then 0 else t.progress.bytes_transferred * 1000 % 2 ^ 64 / elapsed_ms;
    }

abbrev pub emit_progress : Transfer → ℕ → Event
emit_progress t now = gx_progress (progress_snapshot t now)

abbrev pub complete_of : Transfer → Direction → String → ℕ → ℕ → Complete
complete_of t direction path file_size now = record {
  transfer_id = t.spec.transfer_id;
  direction = direction;
  path = path;
  filename = t.spec.filename;
  file_size = file_size;
  file_hash = t.spec.file_hash;
  elapsed_ms = now - t.spec.created_at;
}

-- The bytes of the file that a chunk stands for.
abbrev pub chunk_offset : Transfer → ℕ → ℕ
chunk_offset t i = i * t.spec.chunk_size

abbrev pub chunk_len : Transfer → ℕ → ℕ
chunk_len t i = min t.spec.chunk_size (t.spec.file_size - chunk_offset t i)

abbrev pub is_download : Direction → Bool
is_download download = true
is_download upload = false

-- `matches!(phase, Phase::Transferring | Phase::Paused)`
abbrev pub can_serve : Phase → Bool
can_serve transferring = true
can_serve paused = true
can_serve _ = false

unfoldable pub find_transfer : TransferManager → String → Outcome Transfer
find_transfer m id = or_fail (lookup id m.transfers) (make_error id Code.transfer_not_found false)

unfoldable pub serve_check : TransferManager → String → ℕ → Outcome Transfer
unfolding find_transfer
serve_check m id i = do
  t ← find_transfer m id
  reject_if (not (is_download t.spec.direction)) (make_error id Code.invalid_request false)
  reject_if (not (can_serve t.progress.phase)) (make_error id Code.invalid_request false)
  reject_if (leb t.spec.total_chunks i) (make_error id Code.invalid_request false)
  ok t

-- Whether the source's time of modification is another one now; a failing `metadata` is passed over.
unfoldable pub source_changed : Option ℕ → Io Metadata → Bool
source_changed none now = false
source_changed (some original) (fault _) = false
source_changed (some original) (done meta) = elim meta.mtime [
  | none ↦ true
  | some current ↦ not (current == original)
]

-- The chunk is marked, and the bytes are added.
abbrev pub mark : Transfer → ℕ → ℕ → ℕ → Transfer
mark t i len now = record t {
  progress = record (t.progress) {
    chunks_done = set t.progress.chunks_done i true;
    bytes_transferred = (t.progress.bytes_transferred + len) % 2 ^ 64;
    last_activity = now;
  };
}

abbrev pub with_phase : Transfer → Phase → Transfer
with_phase t p = record t { progress = record (t.progress) { phase = p } }

abbrev pub all_done : Transfer → Bool
all_done t = all id_of t.progress.chunks_done

-- The transfer after a chunk was served: complete when that was the last one.
unfoldable pub served : Transfer → ℕ → ℕ → ℕ → Transfer
served t i len now = let t' = mark t i len now in if all_done t' then with_phase t' complete else t'

-- The update after the read, under the write lock; the transfer may be gone by then.
unfoldable pub serve_commit : TransferManager → String → ℕ → ℕ → ℕ → TransferManager × List Event
unfolding served
serve_commit m id i len now = elim (lookup id m.transfers) [
  | none ↦ (m, [])
  | some t ↦
      let t' = served t i len now in
      (
        record m { transfers = insert id t' m.transfers },
        if all_done t'
            then gx_complete (complete_of t' download t.spec.path t.spec.file_size now)
              ∷ transfer_complete id
              ∷ emit_progress t' now
              ∷ []
            else emit_progress t' now ∷ [],
      )
]

pub record ChunkHeader : Type 0 where
  pub transfer_id : String
  pub chunk_index : ℕ
  pub chunk_hash : String

-- `read` is what `open`, `seek` and `read_exact` come to.
pub record ServeAnswers : Type 0 where
  pub metadata : Io Metadata
  pub read : Io (List ℕ)
  pub now : ℕ

pub record Served : Type 0 where
  pub manager : TransferManager
  pub calls : List FsCall
  pub events : List Event
  pub result : Outcome (ChunkHeader × List ℕ)

abbrev pub refused : TransferManager → List FsCall → TransferError → Served
refused m calls e = record { manager = m; calls = calls; events = []; result = err e }

module _ (hash_bytes : List ℕ → String) where
  -- The answer to the read, and the commit.
  unfoldable pub after_read : TransferManager → String → ℕ → ℕ → Transfer → Io (List ℕ) → Served
  after_read m id i now t (fault _) =
      refused m (read_at t.spec.path (chunk_offset t i) (chunk_len t i) ∷ [])
        (make_error id Code.io_error false)
  after_read m id i now t (done buf) =
      let (m', events) = serve_commit m id i (chunk_len t i) now in
      record {
        manager = m';
        calls = read_at t.spec.path (chunk_offset t i) (chunk_len t i) ∷ [];
        events = events;
        result =
            ok (record { transfer_id = id; chunk_index = i; chunk_hash = hash_bytes buf }, buf);
      }

  -- What follows the checks of the state.
  unfoldable pub after_check :
      TransferManager → String → ℕ → ServeAnswers → Outcome Transfer → Served
  unfolding after_read
  after_check m id i a panic = record { manager = m; calls = []; events = []; result = panic }
  after_check m id i a (err e) = refused m [] e
  after_check m id i a (ok t) =
      if source_changed t.spec.source_mtime a.metadata
      then refused m [] (make_error id Code.file_changed false)
      else after_read m id i a.now t a.read

  unfoldable pub serve_chunk : TransferManager → String → ℕ → ServeAnswers → Served
  unfolding after_check
  serve_chunk m id i a = after_check m id i a (serve_check m id i)
