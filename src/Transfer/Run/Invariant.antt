-- ===== src/Transfer/Run/Invariant.antt =====
-- server/src/gawdxfer/manager.rs: every call keeps every transfer well formed.
use sctl.Prelude.{
  ℕ, ◌<◌, ◌^◌, ◌≡◌, sym, subst, List, some, String, Bool-cases, Option-cases, inl, inr, string_eq,
}
use sctl.Prelude.Map.{Distinct, insert-Distinct, lookup, insert, Entries, Entries-insert}
use sctl.Transfer.Types.{Transfer, TransferManager, Outcome, ok, err, panic, Io, done, fault}
use sctl.Transfer.Validity.{IsValid, served-IsValid, received-IsValid, mismatched-IsValid}
use sctl.Transfer.Start.Validity.{Started}
use sctl.Transfer.Chunks
use sctl.Transfer.Chunks.Finalize.{adjust}
use sctl.Transfer.Chunks.{
  serve_check, serve_commit, served, serve_chunk, ServeAnswers, find_transfer, with_phase, all_done,
  source_changed, chunk_len,
}
use sctl.Transfer.Chunks.Upload.{mismatch_commit, receive_commit, mismatched, received}

-- The manager's transfers are well formed, under the limit on file sizes that this needs.
pub record IsSound (m : TransferManager) : Type 0 where
  pub small : m.config.max_file_size < 2 ^ 32
  pub distinct : Distinct m.transfers
  pub all_valid : Entries IsValid m.transfers

pub insert-IsSound :
    (m : TransferManager) (id : String) (t : Transfer)
    → IsSound m
    → IsValid id t
    → IsSound (record m { transfers = insert id t m.transfers })
insert-IsSound m id t v h = record {
  small = v.small;
  distinct = insert-Distinct id t m.transfers v.distinct;
  all_valid = Entries-insert IsValid id t m.transfers h v.all_valid;
}

pub Started-IsSound :
    (m m' : TransferManager) (id : String) → IsSound m → Started m id m' → IsSound m'
Started-IsSound m m' id v s = subst IsSound (sym s.added) (insert-IsSound m id s.transfer v s.valid)

serve_commit-IsSound :
    (m : TransferManager) (id : String) (i len now : ℕ)
    → IsSound m
    → IsSound (serve_commit m id i len now).0
unfolding serve_commit
serve_commit-IsSound m id i len now v = elim (Option-cases (lookup id m.transfers)) [
  | inl e ↦ rw (e, serve_commit) v
  | inr (t, e) ↦
      rw (e, serve_commit)
        (insert-IsSound m id (served t i len now) v
          (served-IsValid id t (v.all_valid id t e) i len now))
]

pub mismatch_commit-IsSound :
    (m : TransferManager) (id : String) (total now : ℕ)
    → IsSound m
    → IsSound (mismatch_commit m id total now)
unfolding mismatch_commit
mismatch_commit-IsSound m id total now v = elim (Option-cases (lookup id m.transfers)) [
  | inl e ↦ rw (e, mismatch_commit) v
  | inr (t, e) ↦
      let f = mismatched t m.config.max_chunk_retries total now in
      rw (e, mismatch_commit)
        (insert-IsSound m id f v
          (mismatched-IsValid id t (v.all_valid id t e) m.config.max_chunk_retries total now))
]

pub receive_commit-IsSound :
    (m : TransferManager) (id : String) (i len now : ℕ)
    → IsSound m
    → IsSound (receive_commit m id i len now).0
unfolding receive_commit find_transfer
receive_commit-IsSound m id i len now v = elim (Option-cases (lookup id m.transfers)) [
  | inl e ↦ rw (e, receive_commit) v
  | inr (t, e) ↦
      rw (e, receive_commit)
        (insert-IsSound m id (received t i len now) v
          (received-IsValid id t (v.all_valid id t e) i len now))
]

module _ (hash_bytes : List ℕ → String) (m : TransferManager) (id : String) (v : IsSound m) where
  after_read-IsSound :
      (i now : ℕ) (t : Transfer) (r : Io (List ℕ))
      → IsSound (Chunks.after_read hash_bytes m id i now t r).manager
  unfolding Chunks.after_read
  after_read-IsSound i now t (fault k) = v
  after_read-IsSound i now t (done buf) = serve_commit-IsSound m id i (chunk_len t i) now v

  pub serve_check-IsSound :
      (i : ℕ) (a : ServeAnswers) (o : Outcome Transfer)
      → IsSound (Chunks.after_check hash_bytes m id i a o).manager
  unfolding Chunks.after_check
  serve_check-IsSound i a panic = v
  serve_check-IsSound i a (err e) = v
  serve_check-IsSound i a (ok t) =
      elim (Bool-cases (source_changed t.spec.source_mtime a.metadata)) [
        | inl e ↦ rw e v
        | inr e ↦ rw e (after_read-IsSound i a.now t a.read)
      ]

-- A change of one transfer that keeps it well formed.
pub adjust-IsSound :
    (m : TransferManager) (id : String) (f : Transfer → Transfer)
    → IsSound m
    → ((t : Transfer) → lookup id m.transfers ≡ some t → IsValid id t → IsValid id (f t))
    → IsSound (adjust m id f)
unfolding adjust
adjust-IsSound m id f v h = elim (Option-cases (lookup id m.transfers)) [
  | inl e ↦ rw (e, adjust) v
  | inr (t, e) ↦ rw (e, adjust) (insert-IsSound m id (f t) v (h t e (v.all_valid id t e)))
]
