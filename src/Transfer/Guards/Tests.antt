-- ===== src/Transfer/Guards/Tests.antt =====
-- server/src/gawdxfer/manager.rs: chunks of a running upload and of a running download.
use sctl.Prelude.{ℕ, ◌≢◌, false, List, [], ◌∷◌, none, String, string_eq}
use sctl.Prelude.Map.{lookup, insert}
use sctl.Transfer.Types.{Direction, upload, download, transferring, TransferManager, done}
use sctl.Transfer.Chunks
use sctl.Transfer.Chunks.{
  ServeAnswers, find_transfer, serve_check, serve_chunk, can_serve, source_changed, served,
  serve_commit,
}
use sctl.Transfer.Chunks.Upload.{receive_check, receive_commit, received}
use sctl.Transfer.Chunks.Finalize.{UploadAnswers}
use sctl.Transfer.Chunks.Receive.{receive_chunk, after_check, after_write, finalize_if}

abbrev manager : Direction → TransferManager
manager direction = record {
  transfers =
      (
        "t",
        record {
          spec = record {
            transfer_id = "t";
            direction = direction;
            path = "/tmp";
            filename = "f";
            file_size = 3;
            file_hash = "h";
            chunk_size = 2;
            total_chunks = 2;
            mode = none;
            created_at = 0;
            source_mtime = none;
          };
          progress = record {
            phase = transferring;
            chunks_done = false ∷ false ∷ [];
            bytes_transferred = 0;
            last_activity = 0;
            temp_path = "/tmp/.gx_tmp_t";
            error_count = 0;
          };
        },
      )
      ∷ [];
  config = record {
    max_concurrent = 2;
    chunk_size = 2;
    max_file_size = 100;
    stale_timeout_secs = 60;
    max_chunk_retries = 3;
  };
}

abbrev hash_bytes : List ℕ → String
hash_bytes x = "good"

abbrev answers : UploadAnswers
answers = record { write = done tt; hash_file = done "h"; rename = done tt; now = 5 }

abbrev bytes : ServeAnswers
bytes = record {
  metadata = done (record { is_dir = false; len = 3; mtime = none });
  read = done (3 ∷ []);
  now = 5;
}

writes : (receive_chunk hash_bytes (manager upload) "t" 1 "good" (3 ∷ []) answers).calls ≢ []
unfolding receive_chunk after_check receive_check find_transfer lookup after_write receive_commit
    received insert finalize_if
writes e = cc

reads : (serve_chunk hash_bytes (manager download) "t" 1 bytes).calls ≢ []
unfolding serve_chunk Chunks.after_check serve_check find_transfer lookup source_changed
    Chunks.after_read serve_commit served insert
reads e = cc
