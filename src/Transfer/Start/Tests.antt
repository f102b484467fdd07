-- ===== src/Transfer/Start/Tests.antt =====
-- server/src/gawdxfer/manager.rs: starts of transfers, and instances of their laws.
use sctl.Prelude.{◌≡◌, refl, Bool, true, false, [], ◌∷◌, none, some, arith, string_eq}
use sctl.Prelude.Map.{insert, count_values}
use sctl.Transfer.Types.{
  upload, transferring, Transfer, TransferConfig, TransferManager, Code, make_error, ok, err, Io,
  done, fault, other, Metadata, Post,
}
use sctl.Transfer.Start.{
  DownloadAnswers, init_download, validate_transfer_path, compute_chunks, active, stat, counted,
  check_limit, check_disk_space,
}
use sctl.Transfer.Start.Validity.{Started}
use sctl.Transfer.Start.Upload.{
  InitUpload, UploadAnswers, init_upload, check_upload, is_bad_filename,
}

abbrev config : TransferConfig
config = record {
  max_concurrent = 2;
  chunk_size = 2;
  max_file_size = 100;
  stale_timeout_secs = 60;
  max_chunk_retries = 3;
}

abbrev meta : Bool → Metadata
meta is_dir = record { is_dir = is_dir; len = 3; mtime = some 8 }

abbrev file : DownloadAnswers
file = record {
  metadata = done (meta false);
  hash_file = done "h";
  file_name = some "f";
  uuid = "u";
  now = 5;
}

abbrev request : InitUpload
request = record {
  path = "/tmp";
  filename = "f";
  file_size = 3;
  file_hash = "h";
  chunk_size = 2;
  total_chunks = 1;
  mode = none;
}

abbrev directory : Io (Unit {0}) → UploadAnswers
directory room = record {
  metadata = done (meta true);
  statvfs = some 1000;
  uuid = "u";
  create = done tt;
  set_len = room;
  now = 5;
}

abbrev empty : TransferManager
empty = record { transfers = []; config = config }

-- The download is accepted.
download_starts :
    Post
      (λ r. (r.1.total_chunks ≡ 2) × (active r.0 ≡ 1))
      (init_download empty "/tmp/f" (some 2) file)
unfolding init_download validate_transfer_path stat check_limit counted compute_chunks count_values
    insert
download_starts = (refl, refl)

-- The upload is accepted.
upload_starts : Post (λ r. active r.0 ≡ 1) (init_upload empty request (directory (done tt))).1
unfolding init_upload check_upload validate_transfer_path stat check_limit check_disk_space
    is_bad_filename compute_chunks counted count_values insert
upload_starts = refl

no_room :
    (init_upload empty request (directory (fault other))).1
    ≡ err (make_error "" Code.disk_full false)
unfolding init_upload check_upload validate_transfer_path stat check_limit check_disk_space
    is_bad_filename compute_chunks counted count_values
no_room = refl

valid_path : validate_transfer_path "/tmp/f" ≡ ok "/tmp/f"
unfolding validate_transfer_path
valid_path = refl

abbrev untouched : Transfer
untouched = record {
  spec = record {
    transfer_id = "t";
    direction = upload;
    path = "/tmp";
    filename = "f";
    file_size = 3;
    file_hash = "h";
    chunk_size = 2;
    total_chunks = 2;
    mode = none;
    created_at = 0;
    source_mtime = none;
  };
  progress = record {
    phase = transferring;
    chunks_done = false ∷ false ∷ [];
    bytes_transferred = 0;
    last_activity = 0;
    temp_path = "/tmp/.gx_tmp_t";
    error_count = 0;
  };
}

untouched-Started :
    Started empty "t" (record empty { transfers = insert "t" untouched empty.transfers })
unfolding compute_chunks count_values
untouched-Started = record {
  transfer = untouched;
  valid = record {
    own = refl;
    counted = refl;
    slots = refl;
    finished = λ h. cc;
    unfinished = λ h. refl;
  };
  running = refl;
  nothing_done = refl;
  fits = omega arith;
  room = omega arith;
  added = refl;
}
