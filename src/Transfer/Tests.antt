-- ===== src/Transfer/Tests.antt =====
-- server/src/gawdxfer: instances of the laws, on an upload of three bytes in chunks of two.
use sctl.Prelude.{
  ℕ, ◌≡◌, ◌⊎◌, refl, Bool, true, false, List, [], ◌∷◌, none, some, String, arith, map, string_eq,
}
use sctl.Prelude.Map.{Distinct, lookup, insert}
use sctl.Transfer.Types.{
  upload, transferring, paused, verifying, failed, Phase, Transfer, TransferConfig, TransferManager,
  Io, done, Post, config_new, as_str,
}
use sctl.Transfer.Start.{compute_chunks}
use sctl.Transfer.Chunks.{find_transfer}
use sctl.Transfer.Chunks.Upload.{mismatched, mismatch_commit, receive_check, chunk_errors}
use sctl.Transfer.Chunks.Finalize
use sctl.Transfer.Chunks.Finalize.{Snapshot, verify_and_finalize}
use sctl.Transfer.Chunks.Receive.{receive_chunk, after_check}
use sctl.Transfer.Lifecycle.{resume, received_from, list}
use sctl.Transfer.Validity.{IsValid}
use sctl.Transfer.Reassembly.{apply_writes, chunk_writes, apply_writes-chunk_writes}
use sctl.Transfer.Safety.{verify_and_finalize_checks}

abbrev config : TransferConfig
config = record {
  max_concurrent = 2;
  chunk_size = 2;
  max_file_size = 100;
  stale_timeout_secs = 60;
  max_chunk_retries = 3;
}

config_new_example : config_new 2 2 100 60 ≡ config
unfolding config_new
config_new_example = refl

phase_names : (as_str paused ≡ "paused") × (as_str (failed chunk_errors) ≡ "failed")
unfolding as_str
phase_names = (refl, refl)

abbrev transfer : Phase → List Bool → Transfer
transfer phase bits = record {
  spec = record {
    transfer_id = "t";
    direction = upload;
    path = "/tmp";
    filename = "f";
    file_size = 3;
    file_hash = "h";
    chunk_size = 2;
    total_chunks = 2;
    mode = none;
    created_at = 0;
    source_mtime = none;
  };
  progress = record {
    phase = phase;
    chunks_done = bits;
    bytes_transferred = 2;
    last_activity = 0;
    temp_path = "/tmp/.gx_tmp_t";
    error_count = 0;
  };
}

abbrev manager : Phase → List Bool → TransferManager
manager phase bits = record { transfers = ("t", transfer phase bits) ∷ []; config = config }

abbrev half : Transfer
half = transfer transferring (true ∷ false ∷ [])

half-IsValid : IsValid "t" half
unfolding compute_chunks
half-IsValid = record {
  own = refl;
  counted = refl;
  slots = refl;
  finished = λ h. cc;
  unfinished = λ h. refl;
}

abbrev answers : Io String → Finalize.UploadAnswers
answers h = record { write = done tt; hash_file = h; rename = done tt; now = 5 }

abbrev snapshot : Snapshot
snapshot = record {
  temp_path = "/tmp/.gx_tmp_t";
  file_hash = "h";
  file_size = 3;
  final_path = "/tmp/f";
  mode = none;
}

verify_and_finalize_checks_example :
    (h : String) × ((answers (done "h")).hash_file ≡ done h)
    × ((snapshot.file_hash ≡ "") ⊎ (snapshot.file_hash ≡ h))
unfolding verify_and_finalize Finalize.after_rename
verify_and_finalize_checks_example =
    verify_and_finalize_checks (manager verifying (true ∷ true ∷ [])) "t" snapshot
      (answers (done "h")) refl

found :
    (phase : Phase) (bits : List Bool)
    → lookup "t" (manager phase bits).transfers ≡ some (transfer phase bits)
unfolding lookup
found phase bits = refl

abbrev running : TransferManager
running = manager transferring (true ∷ false ∷ [])

abbrev hash_bytes : List ℕ → String
hash_bytes x = "good"

abbrev corrupt : Transfer
corrupt = record half { progress = record (half.progress) { error_count = 1; last_activity = 5 } }

corrupt_found :
    lookup "t"
      (receive_chunk hash_bytes running "t" 1 "bad" (9 ∷ []) (answers (done "h"))).manager.transfers
    ≡ some corrupt
unfolding receive_chunk after_check receive_check find_transfer mismatch_commit mismatched lookup
    insert
corrupt_found = refl

-- One of the two chunks is there.
resumed_half : Post (λ r. r.1.chunks_received ≡ 0 ∷ []) (resume running "t" 9)
unfolding resume find_transfer lookup received_from
resumed_half = refl

listed :
    map {B = String × ℕ} (λ s. (s.phase, s.chunks_done)) (list (manager paused (true ∷ false ∷ [])))
    ≡ ("paused", 1) ∷ []
unfolding list as_str
listed = refl

abbrev complete_set : TransferManager
complete_set = manager verifying (true ∷ true ∷ [])

-- The second chunk first, and once more at the end.
apply_writes-chunk_writes_example :
    apply_writes (chunk_writes half (1 ∷ 2 ∷ 3 ∷ []) "t" (1 ∷ 0 ∷ 1 ∷ [])) (0 ∷ 0 ∷ 0 ∷ [])
    ≡ 1 ∷ 2 ∷ 3 ∷ []
apply_writes-chunk_writes_example =
    apply_writes-chunk_writes half (1 ∷ 2 ∷ 3 ∷ []) "t" refl half-IsValid (omega arith)
      (1 ∷ 0 ∷ 1 ∷ []) (0 ∷ 0 ∷ 0 ∷ []) (omega arith) (λ i h. ground arith) refl

stale-Distinct : Distinct (manager (failed chunk_errors) (true ∷ false ∷ [])).transfers
unfolding lookup
stale-Distinct = (refl, tt)
