-- ===== src/Transfer/Run.antt =====
-- server/src/gawdxfer/manager.rs: the manager under any sequence of its calls, each with what the
-- file system and the clock answer to it.
pub mod Invariant
pub mod Uploads
pub mod Always
mod Tests
use sctl.Prelude.{ℕ, List, [], ◌∷◌, Option, String}
use sctl.Transfer.Types.{TransferManager, TransferConfig, Outcome, ok, err, panic}
use sctl.Transfer.Start.{DownloadAnswers, init_download}
use sctl.Transfer.Start.Upload
use sctl.Transfer.Start.Upload.{InitUpload, init_upload}
use sctl.Transfer.Chunks.{ServeAnswers, serve_chunk}
use sctl.Transfer.Chunks.Finalize
use sctl.Transfer.Chunks.Receive.{receive_chunk}
use sctl.Transfer.Lifecycle.{resume, abort, pause_all, sweep_stale}

pub data Call : Type 0 where
  init_downloads : String → Option ℕ → DownloadAnswers → Call
  init_uploads : InitUpload → Upload.UploadAnswers → Call
  serves : String → ℕ → ServeAnswers → Call
  receives : String → ℕ → String → List ℕ → Finalize.UploadAnswers → Call
  resumes : String → ℕ → Call
  aborts : String → Call
  pauses : Call
  sweeps : ℕ → Call

-- A call that fails leaves the manager as it was.
abbrev pub after {ℓ} :
    {A : Type ℓ} → (A → TransferManager) → TransferManager → Outcome A → TransferManager
after f m (ok a) = f a
after f m (err e) = m
after f m panic = m

-- `TransferManager::new`
pub new : TransferConfig → TransferManager
new config = record { transfers = []; config = config }

module _ (hash_bytes : List ℕ → String) where
  pub step : TransferManager → Call → TransferManager
  step m (init_downloads path chunk_size a) = after (λ r. r.0) m (init_download m path chunk_size a)
  step m (init_uploads req a) = after (λ r. r.0) m (init_upload m req a).1
  step m (serves id i a) = (serve_chunk hash_bytes m id i a).manager
  step m (receives id i h payload a) = (receive_chunk hash_bytes m id i h payload a).manager
  step m (resumes id now) = after (λ r. r.0) m (resume m id now)
  step m (aborts id) = after (λ r. r.0) m (abort m id)
  step m pauses = pause_all m
  step m (sweeps now) = (sweep_stale m now).0

  pub run : TransferManager → List Call → TransferManager
  run m [] = m
  run m (c ∷ cs) = run (step m c) cs
