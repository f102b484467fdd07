-- ===== src/Transfer/Guards.antt =====
-- server/src/gawdxfer/manager.rs: when the chunk handlers touch files at all.
mod Tests
use sctl.Prelude.{
  ℕ, ◌<◌, ◌≡◌, ◌≢◌, refl, Bool, true, false, not, List, [], ◌∷◌, some, String, str_eq, eq_iff,
  arith, leb, string_eq, Bool-cases, inl, inr,
}
use sctl.Prelude.Map.{lookup}
use sctl.Transfer.Types.{
  Transfer, TransferManager, Outcome, ok, err, panic, Io, done, fault, FsCall, read_at, Post,
  bind-Post, reject_if, reject_if-ok, or_fail-ok,
}
use sctl.Transfer.Chunks
use sctl.Transfer.Chunks.{
  ServeAnswers, find_transfer, is_download, can_serve, serve_check, serve_chunk, source_changed,
  chunk_offset, chunk_len,
}
use sctl.Transfer.Chunks.Upload.{is_transferring, receive_check}
use sctl.Transfer.Chunks.Finalize.{UploadAnswers}
use sctl.Transfer.Chunks.Receive.{after_check, receive_chunk}

-- The transfer that the chunk handlers accept a chunk's index for, `download` or not.
pub record Accepted (m : TransferManager) (id : String) (i : ℕ) (download : Bool) (t : Transfer)
    : Type 0 where
  pub found : lookup id m.transfers ≡ some t
  pub direction : is_download t.spec.direction ≡ download
  pub within : i < t.spec.total_chunks

module _ (m : TransferManager) (id : String) (i : ℕ) where
  receive_check-Accepted :
      Post
        (λ t. Accepted m id i false t × (is_transferring t.progress.phase ≡ true))
        (receive_check m id i)
  unfolding receive_check find_transfer
  receive_check-Accepted =
      let P : Transfer → Type 0 =
        λ t. Accepted m id i false t × (is_transferring t.progress.phase ≡ true) in
      bind-Post P (find_transfer m id) _ λ t e.
        bind-Post P (reject_if (is_download t.spec.direction) _) _ λ u d.
          bind-Post P (reject_if (not (is_transferring t.progress.phase)) _) _ λ w p.
            bind-Post P (reject_if (leb t.spec.total_chunks i) _) _ λ x l. (
              record {
                found = or_fail-ok (lookup id m.transfers) _ t e;
                direction = reject_if-ok (is_download t.spec.direction) _ u d;
                within = ground (arith, reject_if-ok (leb t.spec.total_chunks i) _ x l);
              },
              ground (arith, reject_if-ok (not (is_transferring t.progress.phase)) _ w p),
            )

  serve_check-Accepted :
      Post (λ t. Accepted m id i true t × (can_serve t.progress.phase ≡ true)) (serve_check m id i)
  unfolding serve_check find_transfer
  serve_check-Accepted =
      let P : Transfer → Type 0 =
        λ t. Accepted m id i true t × (can_serve t.progress.phase ≡ true) in
      bind-Post P (find_transfer m id) _ λ t e.
        bind-Post P (reject_if (not (is_download t.spec.direction)) _) _ λ u d.
          bind-Post P (reject_if (not (can_serve t.progress.phase)) _) _ λ w p.
            bind-Post P (reject_if (leb t.spec.total_chunks i) _) _ λ x l. (
              record {
                found = or_fail-ok (lookup id m.transfers) _ t e;
                direction = ground (arith, reject_if-ok (not (is_download t.spec.direction)) _ u d);
                within = ground (arith, reject_if-ok (leb t.spec.total_chunks i) _ x l);
              },
              ground (arith, reject_if-ok (not (can_serve t.progress.phase)) _ w p),
            )

  module _ (hash_bytes : List ℕ → String) where
    receive-touches :
        (h : String) (payload : List ℕ) (a : UploadAnswers) (o : Outcome Transfer)
        → Post (λ t. Accepted m id i false t × (is_transferring t.progress.phase ≡ true)) o
        → (after_check hash_bytes m id i h payload a o).calls ≢ []
        → (t : Transfer) × Accepted m id i false t
          × (is_transferring t.progress.phase ≡ true)
          × (hash_bytes payload ≡ h)
    unfolding after_check
    receive-touches h payload a panic v ne = absurd (ne refl)
    receive-touches h payload a (err e) v ne = absurd (ne refl)
    receive-touches h payload a (ok t) v ne = elim (Bool-cases (str_eq (hash_bytes payload) h)) [
      | inl e ↦ (t, v.0, v.1, ground (arith, e, eq_iff (hash_bytes payload) h))
      | inr e ↦ absurd (ne (rw e refl))
    ]

    -- `receive_chunk` makes calls to the file system only for a chunk of a running upload that is
    -- within its count, and only if the chunk's bytes have the hash that came with them.
    pub receive_chunk-touches :
        (h : String) (payload : List ℕ) (a : UploadAnswers)
        → (receive_chunk hash_bytes m id i h payload a).calls ≢ []
        → (t : Transfer) × Accepted m id i false t
          × (is_transferring t.progress.phase ≡ true)
          × (hash_bytes payload ≡ h)
    unfolding receive_chunk
    receive_chunk-touches h payload a =
        receive-touches h payload a (receive_check m id i) receive_check-Accepted

    -- What a download's chunk costs: one read of exactly its bytes, of an accepted chunk.
    abbrev pub ReadsChunk : List FsCall → Type 0
    ReadsChunk calls =
        (t : Transfer) × Accepted m id i true t
        × (can_serve t.progress.phase ≡ true)
        × (calls ≡ read_at t.spec.path (chunk_offset t i) (chunk_len t i) ∷ [])

    read-touches :
        (now : ℕ) (t : Transfer) (r : Io (List ℕ))
        → Accepted m id i true t × (can_serve t.progress.phase ≡ true)
        → ReadsChunk (Chunks.after_read hash_bytes m id i now t r).calls
    unfolding Chunks.after_read
    read-touches now t (fault k) v = (t, v.0, v.1, refl)
    read-touches now t (done buf) v = (t, v.0, v.1, refl)

    serve-touches :
        (a : ServeAnswers) (o : Outcome Transfer)
        → Post (λ t. Accepted m id i true t × (can_serve t.progress.phase ≡ true)) o
        → (Chunks.after_check hash_bytes m id i a o).calls ≢ []
        → ReadsChunk (Chunks.after_check hash_bytes m id i a o).calls
    unfolding Chunks.after_check
    serve-touches a panic v ne = absurd (ne refl)
    serve-touches a (err e) v ne = absurd (ne refl)
    serve-touches a (ok t) v ne =
        elim (Bool-cases (source_changed t.spec.source_mtime a.metadata)) [
          | inl e ↦ absurd (ne (rw e refl))
          | inr e ↦ rw e (read-touches a.now t a.read v)
        ]

    -- `serve_chunk` reads a file only for a chunk of a running or paused download that is within its
    -- count, and then it makes one read, of exactly the chunk's bytes.
    pub serve_chunk-touches :
        (a : ServeAnswers)
        → (serve_chunk hash_bytes m id i a).calls ≢ []
        → ReadsChunk (serve_chunk hash_bytes m id i a).calls
    unfolding serve_chunk
    serve_chunk-touches a = serve-touches a (serve_check m id i) serve_check-Accepted
