-- ===== src/Transfer/Run/Tests.antt =====
-- server/src/gawdxfer/manager.rs: whole runs of the manager.
use sctl.Prelude.{ℕ, ◌≡◌, refl, false, List, [], ◌∷◌, none, some, String, arith, map, string_eq}
use sctl.Prelude.Map.{lookup, insert, count_values, map_values, filter_keys, remove}
use sctl.Transfer.Types.{TransferConfig, done, as_str}
use sctl.Transfer.Start.{
  DownloadAnswers, init_download, validate_transfer_path, stat, check_limit, counted,
  compute_chunks,
}
use sctl.Transfer.Chunks.{
  ServeAnswers, find_transfer, serve_check, source_changed, served, serve_commit, after_read,
  after_check, serve_chunk,
}
use sctl.Transfer.Lifecycle.{
  resume, resumed, received_from, abort, pause, pause_all, is_stale, remove_each, sweep_stale,
}
use sctl.Transfer.Run.{
  Call, init_downloads, serves, resumes, aborts, pauses, sweeps, new, step, run,
}
use sctl.Transfer.Run.Invariant.{IsSound}
use sctl.Transfer.Run.Always.{run-IsSound}

abbrev config : TransferConfig
config = record {
  max_concurrent = 2;
  chunk_size = 2;
  max_file_size = 100;
  stale_timeout_secs = 60;
  max_chunk_retries = 3;
}

abbrev file : DownloadAnswers
file = record {
  metadata = done (record { is_dir = false; len = 3; mtime = some 8 });
  hash_file = done "h";
  file_name = some "f";
  uuid = "u";
  now = 5;
}

abbrev chunk : List ℕ → ServeAnswers
chunk bytes = record {
  metadata = done (record { is_dir = false; len = 3; mtime = some 8 });
  read = done bytes;
  now = 6;
}

abbrev hash_bytes : List ℕ → String
hash_bytes x = "good"

abbrev start : Call
start = init_downloads "/tmp/f" none (record file { now = 6 })

abbrev download_all : List Call
download_all =
    init_downloads "/tmp/f" none file
    ∷ serves "u" 0 (chunk (1 ∷ 2 ∷ []))
    ∷ pauses
    ∷ resumes "u" 7
    ∷ serves "u" 1 (chunk (3 ∷ []))
    ∷ []

phases : List Call → List (String × String)
phases cs =
    map (λ kt. (kt.0, as_str kt.1.progress.phase)) (run hash_bytes (new config) cs).transfers

-- A file is served in two chunks, with a pause between them, and the transfer is complete.
serves_file : phases download_all ≡ ("u", "complete") ∷ []
unfolding phases run step new init_download validate_transfer_path stat check_limit counted
    compute_chunks count_values insert lookup find_transfer serve_check source_changed served
    serve_commit after_read after_check serve_chunk resume resumed received_from pause pause_all
    map_values as_str
serves_file = refl

-- The transfer, aborted after its first chunk, is still there a minute later and gone after that.
sweeps_aborted :
    (phases (start ∷ aborts "u" ∷ sweeps 60006 ∷ []) ≡ ("u", "aborted") ∷ [])
    × (phases (start ∷ aborts "u" ∷ sweeps 60007 ∷ []) ≡ [])
unfolding phases run step new init_download validate_transfer_path stat check_limit counted
    compute_chunks count_values insert lookup find_transfer abort filter_keys is_stale remove_each
    remove sweep_stale as_str
sweeps_aborted = (refl, refl)

run-IsSound_example : IsSound (run hash_bytes (new config) download_all)
run-IsSound_example = run-IsSound hash_bytes config download_all (omega arith)
