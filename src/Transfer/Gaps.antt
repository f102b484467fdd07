-- ===== src/Transfer/Gaps.antt =====
-- server/src/gawdxfer/manager.rs: requests and orders of calls that the code does not guard against.
use sctl.Prelude.{ℕ, ◌<◌, ◌≤◌, ◌≡◌, refl, ◌≢◌, true, false, some, String, arith, string_eq}
use sctl.Prelude.Map.{lookup, lookup-insert_self}
use sctl.Transfer.Types.{
  verifying, aborted, Transfer, TransferManager, Code, make_error, ok, err, panic, done, fault,
  IoKind, Metadata,
}
use sctl.Transfer.Start.{
  DownloadAnswers, init_download, validate_transfer_path, check_limit, active, compute_chunks,
  counted, stat,
}
use sctl.Transfer.Chunks.{find_transfer, serve_check, mark, all_done}
use sctl.Transfer.Chunks.Upload.{receive_check, receive_commit, received}
use sctl.Transfer.Chunks.Finalize.{UploadAnswers, Snapshot, verify_and_finalize, after_hash}
use sctl.Transfer.Lifecycle.{resume, is_stale}

-- A download request for chunks of 0 bytes panics, where the file can be downloaded and is not
-- empty.
pub init_download-zero_chunk :
    (m : TransferManager) (path validated : String) (a : DownloadAnswers) (meta : Metadata)
    → validate_transfer_path path ≡ ok validated
    → a.metadata ≡ done meta
    → meta.is_dir ≡ false
    → 0 < meta.len
    → meta.len ≤ m.config.max_file_size
    → active m < m.config.max_concurrent
    → init_download m path (some 0) a ≡ panic
unfolding init_download check_limit compute_chunks counted stat
init_download-zero_chunk m path validated a meta v e d pos fits room = rw (v, e, d) (ground arith)

-- The last chunk of an upload that was aborted after the chunk's check but before its commit turns
-- the aborted transfer into one that is being verified.
pub receive_commit-revives :
    (m : TransferManager) (id : String) (i len now : ℕ) (t : Transfer)
    → lookup id m.transfers ≡ some t
    → t.progress.phase ≡ aborted
    → all_done (mark t i len now) ≡ true
    → (t' : Transfer) × (lookup id (receive_commit m id i len now).0.transfers ≡ some t')
      × (t'.progress.phase ≡ verifying)
unfolding receive_commit find_transfer received
receive_commit-revives m id i len now t e p d = (
  received t i len now,
  rw (e, receive_commit, find_transfer) (lookup-insert_self id (received t i len now) m.transfers),
  ground arith,
)

-- An upload whose file cannot be read back after the last chunk stays as it was, being verified,
-- and nothing but an abort moves it on.
pub verify_and_finalize-sticks :
    (m : TransferManager) (id : String) (s : Snapshot) (a : UploadAnswers) (k : IoKind)
    (t : Transfer)
    → lookup id m.transfers ≡ some t
    → t.progress.phase ≡ verifying
    → a.hash_file ≡ fault k
    → let f = verify_and_finalize m id s a in
      (f.manager ≡ m)
      × ((i : ℕ) (u : Transfer) → receive_check f.manager id i ≢ ok u)
      × ((i : ℕ) (u : Transfer) → serve_check f.manager id i ≢ ok u)
      × ((now : ℕ) → resume f.manager id now ≡ err (make_error id Code.invalid_request false))
      × ((now : ℕ) → is_stale f.manager now t ≡ false)
unfolding verify_and_finalize after_hash receive_check serve_check resume is_stale find_transfer
verify_and_finalize-sticks m id s a k t e p h =
    rw (h, verify_and_finalize, after_hash)
      (
        refl,
        λ i u q. ground (arith, q),
        λ i u q. ground (arith, q),
        λ now. ground arith,
        λ now. ground arith,
      )
