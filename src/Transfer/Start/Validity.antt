-- ===== src/Transfer/Start/Validity.antt =====
-- server/src/gawdxfer/manager.rs: a started transfer is well formed, within the limits.
use sctl.Prelude.{
  ℕ, ◌≤◌, ◌<◌, ◌^◌, ◌≡◌, refl, false, List, Option, none, some, String, arith, ltb, leb,
  length-replicate, string_eq,
}
use sctl.Prelude.Map.{insert}
use sctl.Transfer.Types.{
  transferring, Transfer, TransferManager, ok, Event, Post, bind-Post, reject_if, reject_if-ok,
}
use sctl.Transfer.Start.{
  DownloadAnswers, InitDownloadResult, init_download, stat, hashed, counted, download_of,
  fresh_progress, compute_chunks, validate_transfer_path, check_limit, active, unwrap_or,
}
use sctl.Transfer.Validity.{IsValid, compute_chunks_pos, all-replicate}
use sctl.Transfer.Chunks.{all_done}

-- The manager after a start: one transfer is added under the new id, well formed, with no chunk
-- done, for a file within the limit, and there was room for it.
pub record Started (m : TransferManager) (id : String) (m' : TransferManager) : Type 0 where
  pub transfer : Transfer
  pub valid : IsValid id transfer
  pub running : transfer.progress.phase ≡ transferring
  pub nothing_done : all_done transfer ≡ false
  pub fits : transfer.spec.file_size ≤ m.config.max_file_size
  pub room : active m < m.config.max_concurrent
  pub added : m' ≡ record m { transfers = insert id transfer m.transfers }

pub counted-ok : (o : Option ℕ) (n : ℕ) → counted o ≡ ok n → o ≡ some n
unfolding counted
counted-ok none n h = cc
counted-ok (some k) n h = cc

pub check_limit-ok :
    (m : TransferManager) (u : Unit {0}) → check_limit m ≡ ok u → active m < m.config.max_concurrent
unfolding check_limit
check_limit-ok m u h = ground (arith, reject_if-ok (leb m.config.max_concurrent (active m)) _ u h)

module _ (m : TransferManager) (small : m.config.max_file_size < 2 ^ 32) where
  download-Started :
      (path hash : String) (size file_size total : ℕ) (a : DownloadAnswers) (mtime : Option ℕ)
      → file_size ≤ m.config.max_file_size
      → active m < m.config.max_concurrent
      → compute_chunks file_size size ≡ some total
      → let t = download_of path file_size hash size total a mtime in
        Started m a.uuid (record m { transfers = insert a.uuid t m.transfers })
  unfolding download_of fresh_progress
  download-Started path hash size file_size total a mtime fits room count =
      let pos : 0 < total = compute_chunks_pos file_size size total (omega arith) count in
      record {
        transfer = download_of path file_size hash size total a mtime;
        valid = record {
          own = refl;
          counted = count;
          slots = length-replicate total false;
          finished = λ h. cc;
          unfinished = λ h. all-replicate total pos;
        };
        running = refl;
        nothing_done = all-replicate total pos;
        fits = fits;
        room = room;
        added = refl;
      }

  -- A download that is accepted starts as `Started` says, and its answer repeats the count of chunks
  -- of the file that was found, for a limit on the file size below 2^32.
  pub init_download-Started :
      (path : String) (chunk_size : Option ℕ) (a : DownloadAnswers)
      → Post (λ r. Started m a.uuid r.0) (init_download m path chunk_size a)
  unfolding init_download
  init_download-Started path chunk_size a =
      let P : TransferManager × InitDownloadResult × List Event → Type 0 =
        λ r. Started m a.uuid r.0 in
      bind-Post P (validate_transfer_path path) _ λ validated _.
        bind-Post P (stat a.metadata) _ λ meta _. bind-Post P (reject_if meta.is_dir _) _ λ _ _.
          bind-Post P (reject_if (ltb m.config.max_file_size meta.len) _) _ λ u within.
            bind-Post P (check_limit m) _ λ w room.
              bind-Post P
                (counted (compute_chunks meta.len (unwrap_or chunk_size m.config.chunk_size))) _
                λ total count. bind-Post P (hashed a.hash_file) _ λ file_hash _.
                  download-Started validated file_hash (unwrap_or chunk_size m.config.chunk_size)
                    meta.len total a meta.mtime
                    (ground (arith, reject_if-ok (ltb m.config.max_file_size meta.len) _ u within))
                    (check_limit-ok m w room) (counted-ok _ total count)
