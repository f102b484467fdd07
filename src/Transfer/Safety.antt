-- ===== src/Transfer/Safety.antt =====
-- server/src/gawdxfer/manager.rs: what protects the data and the limits.
use sctl.Prelude.{
  ℕ, zero, suc, ◌*◌, ◌^◌, ◌≤◌, ◌<◌, ◌≡◌, refl, ◌≢◌, ◌⊎◌, Bool, true, false, List, [], ◌∷◌, some,
  String, str_eq, arith, string_eq, eq_iff, str_eq-ne,
}
use sctl.Prelude.Map.{lookup, lookup-insert_self, count_values-insert-le}
use sctl.Transfer.Types.{
  transferring, failed, Transfer, TransferManager, Outcome, ok, err, panic, Io, done, fault, FsCall,
  rename,
}
use sctl.Transfer.Start.{active, is_active}
use sctl.Transfer.Start.Validity.{Started}
use sctl.Transfer.Chunks.Upload.{mismatched, mismatch_commit, receive_check, chunk_errors}
use sctl.Transfer.Chunks.Finalize.{
  verify_and_finalize, after_hash, after_rename, Snapshot, UploadAnswers,
}
use sctl.Transfer.Chunks.Receive.{receive_chunk, after_check}

-- A start, checked and inserted without another call in between, keeps the number of active
-- transfers within the limit.
pub Started-active :
    (m m' : TransferManager) (id : String) → Started m id m' → active m' ≤ m.config.max_concurrent
Started-active m m' id s = rw s.added (
    omega (
      arith,
      s.room,
      count_values-insert-le (λ t. is_active t.progress.phase) id s.transfer m.transfers,
    ))

-- Whether the calls rename a file.
abbrev pub renames : List FsCall → Bool
renames [] = false
renames (rename a b ∷ cs) = true
renames (c ∷ cs) = renames cs

-- The temporary file of an upload takes its final name only if its hash could be computed and is the
-- one that the client gave, or the client gave none.
pub verify_and_finalize_checks :
    (m : TransferManager) (id : String) (s : Snapshot) (a : UploadAnswers)
    → renames (verify_and_finalize m id s a).calls ≡ true
    → (h : String) × (a.hash_file ≡ done h) × ((s.file_hash ≡ "") ⊎ (s.file_hash ≡ h))
unfolding verify_and_finalize after_hash after_rename
verify_and_finalize_checks m id s a r = after_hash_checks a.hash_file r
  where
    after_hash_checks :
        (f : Io String)
        → renames (after_hash m id s a f).calls ≡ true
        → (h : String) × (f ≡ done h) × ((s.file_hash ≡ "") ⊎ (s.file_hash ≡ h))
    after_hash_checks (fault k) r = cc
    after_hash_checks (done h) r =
        (h, refl, ground (arith, eq_iff s.file_hash "", eq_iff h s.file_hash))

-- What a chunk with the wrong hash leaves of the transfer.
abbrev pub SameChunks : Transfer → Transfer → Type 0
SameChunks t t' =
    (t'.progress.chunks_done ≡ t.progress.chunks_done)
    × (t'.progress.bytes_transferred ≡ t.progress.bytes_transferred)

mismatch_commit-SameChunks :
    (m : TransferManager) (id : String) (total now : ℕ) (t t' : Transfer)
    → lookup id m.transfers ≡ some t
    → lookup id (mismatch_commit m id total now).transfers ≡ some t'
    → SameChunks t t'
unfolding mismatch_commit mismatched
mismatch_commit-SameChunks m id total now t t' e e' =
    ground
      (arith, lookup-insert_self id (mismatched t m.config.max_chunk_retries total now) m.transfers)

after_check_corrupt :
    (hash_bytes : List ℕ → String) (m : TransferManager) (id : String) (i : ℕ) (h : String)
    (payload : List ℕ) (a : UploadAnswers) (t t' : Transfer) (o : Outcome Transfer)
    → hash_bytes payload ≢ h
    → lookup id m.transfers ≡ some t
    → lookup id (after_check hash_bytes m id i h payload a o).manager.transfers ≡ some t'
    → ((after_check hash_bytes m id i h payload a o).calls ≡ []) × SameChunks t t'
unfolding after_check
after_check_corrupt hash_bytes m id i h payload a t t' panic ne e e' = ground arith
after_check_corrupt hash_bytes m id i h payload a t t' (err x) ne e e' = ground arith
after_check_corrupt hash_bytes m id i h payload a t t' (ok u) ne e e' =
    let differs : str_eq (hash_bytes payload) h ≡ false = str_eq-ne (hash_bytes payload) h ne in
    rw differs
      (refl, mismatch_commit-SameChunks m id u.spec.total_chunks a.now t t' e (rw differs at e'))

-- A chunk whose bytes do not have the hash that came with it is not written to any file, and does
-- not count: the transfer's chunks and bytes stay as they were.
pub receive_chunk_rejects_corrupt :
    (hash_bytes : List ℕ → String) (m : TransferManager) (id : String) (i : ℕ) (h : String)
    (payload : List ℕ) (a : UploadAnswers) (t t' : Transfer)
    → hash_bytes payload ≢ h
    → lookup id m.transfers ≡ some t
    → let f = receive_chunk hash_bytes m id i h payload a in
      lookup id f.manager.transfers ≡ some t' → (f.calls ≡ []) × SameChunks t t'
unfolding receive_chunk
receive_chunk_rejects_corrupt hash_bytes m id i h payload a t t' ne e e' =
    after_check_corrupt hash_bytes m id i h payload a t t' (receive_check m id i) ne e e'

-- `n` chunks with wrong hashes, one after the other.
abbrev pub mismatch_all : ℕ → ℕ → ℕ → ℕ → Transfer → Transfer
mismatch_all zero retries total now t = t
mismatch_all (suc n) retries total now t =
    mismatched (mismatch_all n retries total now t) retries total now

mismatch_all-counts :
    (n retries total now : ℕ) (t : Transfer)
    → t.progress.error_count ≡ 0
    → t.progress.phase ≡ transferring
    → retries * total < 2 ^ 32
    → n < retries * total
    → ((mismatch_all n retries total now t).progress.error_count ≡ n)
      × ((mismatch_all n retries total now t).progress.phase ≡ transferring)
unfolding mismatched
mismatch_all-counts zero retries total now t z p small h = (z, p)
mismatch_all-counts (suc n) retries total now t z p small h =
    ground (arith, mismatch_all-counts n retries total now t z p small)

-- A running transfer with no errors yet stays running through fewer wrong chunks than the retries
-- for each chunk times the chunks, and fails at exactly that many; below 2^32 of them.
pub mismatch_all-threshold :
    (n retries total now : ℕ) (t : Transfer)
    → t.progress.error_count ≡ 0
    → t.progress.phase ≡ transferring
    → suc n ≡ retries * total
    → suc n < 2 ^ 32
    → ((k : ℕ) → k ≤ n → (mismatch_all k retries total now t).progress.phase ≡ transferring)
      × ((mismatch_all (suc n) retries total now t).progress.phase ≡ failed chunk_errors)
unfolding mismatched
mismatch_all-threshold n retries total now t z p e small = (
  λ k h. (mismatch_all-counts k retries total now t z p (omega arith) (omega arith)).1,
  ground (arith, mismatch_all-counts n retries total now t z p),
)
