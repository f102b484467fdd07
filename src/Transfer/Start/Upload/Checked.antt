-- ===== src/Transfer/Start/Upload/Checked.antt =====
-- server/src/gawdxfer/manager.rs, `init_upload`: what is accepted, and what is left behind.
use sctl.Prelude.{
  ℕ, ◌≤◌, ◌<◌, ◌^◌, ◌≡◌, refl, sym, false, not, ◌⊎◌, inl, inr, List, [], ◌∷◌, some, String, arith,
  ltb, ◌==◌, length-replicate, max, string_eq,
}
use sctl.Transfer.Types.{
  TransferManager, Outcome, ok, err, panic, FsCall, create, set_len, remove_file, Post, bind-Post,
  TransferError, reject_if, reject_if-ok,
}
use sctl.Transfer.Start.{
  stat, counted, compute_chunks, validate_transfer_path, check_limit, check_disk_space, active,
  fresh_progress,
}
use sctl.Transfer.Start.Validity.{Started, counted-ok, check_limit-ok}
use sctl.Transfer.Start.Upload.{
  InitUpload, UploadAnswers, init_upload, check_upload, upload_of, allocate, insert_upload,
  start_upload, is_bad_filename, join, temp_name,
}
use sctl.Transfer.Validity.{compute_chunks_pos, all-replicate}

-- What the checks have found.
record Accepted (m : TransferManager) (req : InitUpload) (found : String × ℕ × ℕ) : Type 0 where
  size : found.1 ≡ max req.chunk_size 1024
  count : compute_chunks req.file_size found.1 ≡ some found.2
  agreed : req.total_chunks ≡ found.2
  fits : req.file_size ≤ m.config.max_file_size
  room : active m < m.config.max_concurrent

module _ (m : TransferManager) (req : InitUpload) (a : UploadAnswers) where
  check_upload-Accepted : Post (Accepted m req) (check_upload m req a)
  unfolding check_upload
  check_upload-Accepted =
      let P = Accepted m req in
      bind-Post P (validate_transfer_path req.path) _ λ dir _.
        bind-Post P (stat a.metadata) _ λ meta _.
          bind-Post P (reject_if (not meta.is_dir) _) _ λ _ _.
            bind-Post P (reject_if (is_bad_filename req.filename) _) _ λ _ _.
              bind-Post P (reject_if (ltb m.config.max_file_size req.file_size) _) _ λ u within.
                bind-Post P (check_limit m) _ λ w room.
                  bind-Post P (check_disk_space a.statvfs req.file_size) _ λ _ _.
                    bind-Post P (counted (compute_chunks req.file_size (max req.chunk_size 1024))) _
                      λ total count.
                        bind-Post P (reject_if (not (req.total_chunks == total)) _) _ λ x same.
                          record {
                            size = refl;
                            count = counted-ok _ total count;
                            agreed =
                                ground
                                  (arith, reject_if-ok (not (req.total_chunks == total)) _ x same);
                            fits = ground (
                              arith,
                              reject_if-ok (ltb m.config.max_file_size req.file_size) _ u within,
                            );
                            room = check_limit-ok m w room;
                          }

  upload-Started :
      m.config.max_file_size < 2 ^ 32
      → (dir : String) (size total : ℕ) → Accepted m req (dir, size, total)
      → Started m a.uuid (insert_upload m (upload_of dir size total req a)).0
  unfolding insert_upload upload_of fresh_progress
  upload-Started small dir size total v =
      let pos : 0 < total =
        compute_chunks_pos req.file_size size total (omega (arith, v.fits)) v.count in
      record {
        transfer = upload_of dir size total req a;
        valid = record {
          own = refl;
          counted = v.count;
          slots = length-replicate total false;
          finished = λ h. cc;
          unfinished = λ h. all-replicate total pos;
        };
        running = refl;
        nothing_done = all-replicate total pos;
        fits = v.fits;
        room = v.room;
        added = refl;
      }

  start_upload-Started :
      m.config.max_file_size < 2 ^ 32
      → (found : Outcome (String × ℕ × ℕ)) → Post (Accepted m req) found
      → Post
          (λ r.
            Started m a.uuid r.0 × (r.1.total_chunks ≡ req.total_chunks) × (1024 ≤ r.1.chunk_size))
          (start_upload m req a found).1
  unfolding start_upload insert_upload upload_of
  start_upload-Started small panic v = tt
  start_upload-Started small (err e) v = tt
  start_upload-Started small (ok (dir, size, total)) v =
      bind-Post
        (λ r.
          Started m a.uuid r.0 × (r.1.total_chunks ≡ req.total_chunks) × (1024 ≤ r.1.chunk_size))
        (allocate (join dir (temp_name a.uuid)) req.file_size a).1 _
        λ u made. (upload-Started small dir size total v, sym v.agreed, omega (arith, v.size))

  -- An upload that is accepted starts as `Started` says, with the count of chunks that the client
  -- sent and chunks of at least 1024 bytes, for a limit on the file size below 2^32.
  pub init_upload-Started :
      m.config.max_file_size < 2 ^ 32
      → Post
          (λ r.
            Started m a.uuid r.0 × (r.1.total_chunks ≡ req.total_chunks) × (1024 ≤ r.1.chunk_size))
          (init_upload m req a).1
  unfolding init_upload
  init_upload-Started small =
      start_upload-Started small (check_upload m req a) check_upload-Accepted

  -- No temporary file is left: no call was made, the file could not be created, or it is removed.
  abbrev pub LeavesNothing : List FsCall → Type 0
  LeavesNothing calls =
      (calls ≡ [])
      ⊎ ((temp : String) × ((calls ≡ create temp ∷ [])
            ⊎ (calls ≡ create temp ∷ set_len temp req.file_size ∷ remove_file temp ∷ [])))

  allocate-LeavesNothing :
      (temp : String)
      → ((allocate temp req.file_size a).1 ≡ ok tt)
        ⊎ ((allocate temp req.file_size a).0 ≡ create temp ∷ [])
        ⊎ ((allocate temp req.file_size a).0
            ≡ create temp ∷ set_len temp req.file_size ∷ remove_file temp ∷ [])
  unfolding allocate
  allocate-LeavesNothing temp = ground arith

  start_upload-LeavesNothing :
      (found : Outcome (String × ℕ × ℕ)) (x : TransferError)
      → (start_upload m req a found).1 ≡ err x
      → LeavesNothing (start_upload m req a found).0
  unfolding start_upload
  start_upload-LeavesNothing panic x e = inl refl
  start_upload-LeavesNothing (err y) x e = inl refl
  start_upload-LeavesNothing (ok (dir, size, total)) x e =
      let temp = join dir (temp_name a.uuid) in
      inr (temp, ground (arith, allocate-LeavesNothing temp))

  -- An upload that is refused or fails leaves no temporary file behind: it made no call at all, the
  -- file could not be created, or the file that was created is removed.
  pub init_upload-LeavesNothing :
      (x : TransferError) → (init_upload m req a).1 ≡ err x → LeavesNothing (init_upload m req a).0
  unfolding init_upload
  init_upload-LeavesNothing x = start_upload-LeavesNothing (check_upload m req a) x
