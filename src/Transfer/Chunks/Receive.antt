-- ===== src/Transfer/Chunks/Receive.antt =====
-- server/src/gawdxfer/manager.rs, `receive_chunk`.
use sctl.Prelude.{ℕ, Bool, true, false, List, [], ◌∷◌, ◌++◌, String, str_eq, if◌then◌else◌, length}
use sctl.Transfer.Types.{
  Outcome, Io, done, fault, ok, err, panic, ◌>>◌, Transfer, TransferManager, TransferError, Code,
  make_error, FsCall, write_at,
}
use sctl.Transfer.Chunks.{chunk_offset}
use sctl.Transfer.Chunks.Upload.{receive_check, mismatch_commit, receive_commit}
use sctl.Transfer.Chunks.Finalize.{UploadAnswers, Finished, snapshot, verify_and_finalize}

pub record ChunkAck : Type 0 where
  pub transfer_id : String
  pub chunk_index : ℕ
  pub is_ok : Bool

abbrev pub ack : String → ℕ → Bool → ChunkAck
ack id i is_ok = record { transfer_id = id; chunk_index = i; is_ok = is_ok }

abbrev pub stopped : TransferManager → List FsCall → TransferError → Finished ChunkAck
stopped m calls e = record { manager = m; calls = calls; events = []; result = err e }

-- `open`, `seek`, `write_all` and `sync_data`, as one call.
abbrev pub chunk_write : Transfer → ℕ → List ℕ → FsCall
chunk_write t i payload = write_at t.progress.temp_path (chunk_offset t i) payload

-- The whole-file check when the last chunk is in.
unfoldable pub finalize_if :
    TransferManager → String → ℕ → Transfer → UploadAnswers → Outcome Bool → Finished ChunkAck
finalize_if m id i t a panic = record { manager = m; calls = []; events = []; result = panic }
finalize_if m id i t a (err e) = stopped m [] e
finalize_if m id i t a (ok false) = record {
  manager = m;
  calls = [];
  events = [];
  result = ok (ack id i true);
}
finalize_if m id i t a (ok true) =
    let f = verify_and_finalize m id (snapshot t) a in
    record {
      manager = f.manager;
      calls = f.calls;
      events = f.events;
      result = f.result >> ok (ack id i true);
    }

-- What follows the write of the chunk.
unfoldable pub after_write :
    TransferManager
    → String
    → ℕ
    → List ℕ
    → Transfer
    → UploadAnswers
    → Io (Unit {0})
    → Finished ChunkAck
unfolding finalize_if
after_write m id i payload t a (fault _) =
    stopped m (chunk_write t i payload ∷ []) (make_error id Code.io_error false)
after_write m id i payload t a (done _) =
    let (m', events, all_done) = receive_commit m id i (length payload) a.now in
    let f = finalize_if m' id i t a all_done in
    record f { calls = chunk_write t i payload ∷ f.calls; events = events ++ f.events }

module _ (hash_bytes : List ℕ → String) where
  -- What follows the checks of the state.
  unfoldable pub after_check :
      TransferManager
      → String
      → ℕ
      → String
      → List ℕ
      → UploadAnswers
      → Outcome Transfer
      → Finished ChunkAck
  unfolding after_write
  after_check m id i chunk_hash payload a panic = record {
    manager = m;
    calls = [];
    events = [];
    result = panic;
  }
  after_check m id i chunk_hash payload a (err e) = stopped m [] e
  after_check m id i chunk_hash payload a (ok t) =
      if str_eq (hash_bytes payload) chunk_hash
      then after_write m id i payload t a a.write
      else record {
        manager = mismatch_commit m id t.spec.total_chunks a.now;
        calls = [];
        events = [];
        result = ok (ack id i false);
      }

  -- `payload` is the source's `data`. The calls run one after the other here; what other tasks do
  -- between the check and the commit is modelled by the two of them apart.
  unfoldable pub receive_chunk :
      TransferManager → String → ℕ → String → List ℕ → UploadAnswers → Finished ChunkAck
  unfolding after_check
  receive_chunk m id i chunk_hash payload a =
      after_check m id i chunk_hash payload a (receive_check m id i)
