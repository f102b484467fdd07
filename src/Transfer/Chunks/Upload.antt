-- ===== src/Transfer/Chunks/Upload.antt =====
-- server/src/gawdxfer/manager.rs: the chunks of an upload, and its end.
use sctl.Prelude.{
  ℕ, ◌+◌, ◌*◌, ◌%◌, ◌^◌, Bool, true, false, not, List, [], ◌∷◌, none, some, String, leb,
  if◌then◌else◌, string_eq,
}
use sctl.Prelude.Map.{lookup, insert}
use sctl.Transfer.Types.{
  Phase, transferring, verifying, failed, Transfer, TransferManager, Code, make_error, Outcome, ok,
  err, panic, ◌>>=◌, ◌>>◌, reject_if, Event,
}
use sctl.Transfer.Chunks.{find_transfer, is_download, mark, with_phase, all_done, emit_progress}

abbrev pub is_transferring : Phase → Bool
is_transferring transferring = true
is_transferring _ = false

unfoldable pub receive_check : TransferManager → String → ℕ → Outcome Transfer
receive_check m id i = do
  t ← find_transfer m id
  reject_if (is_download t.spec.direction) (make_error id Code.invalid_request false)
  reject_if (not (is_transferring t.progress.phase)) (make_error id Code.invalid_request false)
  reject_if (leb t.spec.total_chunks i) (make_error id Code.invalid_request false)
  ok t

abbrev pub chunk_errors : String
chunk_errors = "Too many chunk errors"

-- The transfer after a chunk with a wrong hash; the products and sums are those of `u32`.
unfoldable pub mismatched : Transfer → ℕ → ℕ → ℕ → Transfer
mismatched t retries total now =
    let errors = (t.progress.error_count + 1) % 2 ^ 32 in
    let t' = record t {
      progress = record (t.progress) { error_count = errors; last_activity = now };
    } in
    if leb (retries * total % 2 ^ 32) errors then with_phase t' (failed chunk_errors) else t'

unfoldable pub mismatch_commit : TransferManager → String → ℕ → ℕ → TransferManager
unfolding mismatched
mismatch_commit m id total now = elim (lookup id m.transfers) [
  | none ↦ m
  | some t ↦ record m {
    transfers = insert id (mismatched t m.config.max_chunk_retries total now) m.transfers;
  }
]

-- The transfer after a chunk was written: to be verified when that was the last one.
unfoldable pub received : Transfer → ℕ → ℕ → ℕ → Transfer
received t i len now =
    let t' = mark t i len now in if all_done t' then with_phase t' verifying else t'

-- The update after the write; the result says whether all chunks are there.
unfoldable pub receive_commit :
    TransferManager → String → ℕ → ℕ → ℕ → TransferManager × List Event × Outcome Bool
unfolding received find_transfer
receive_commit m id i len now = elim (find_transfer m id) [
  | panic ↦ (m, [], panic)
  | err e ↦ (m, [], err e)
  | ok t ↦
      let t' = received t i len now in
      (
        record m { transfers = insert id t' m.transfers },
        emit_progress t' now ∷ [],
        ok (all_done t'),
      )
]
