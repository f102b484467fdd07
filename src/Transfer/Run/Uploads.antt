-- ===== src/Transfer/Run/Uploads.antt =====
-- server/src/gawdxfer/manager.rs: the end of an upload keeps every
-- transfer well formed.
use sctl.Prelude.{
  ℕ, ◌≡◌, refl, Bool, true, false, List, some, String, str_eq, arith, length, Bool-cases,
  Option-cases, inl, inr, string_eq,
}
use sctl.Prelude.Map.{lookup, lookup-insert_self}
use sctl.Transfer.Types.{
  Transfer, TransferManager, Outcome, ok, err, panic, Io, done, fault, complete, failed,
}
use sctl.Transfer.Validity.{IsValid, finished-IsValid, failed-IsValid}
use sctl.Transfer.Chunks.Finalize.{
  adjust, with_hash, Snapshot, UploadAnswers, after_rename, after_hash, verify_and_finalize,
  hash_failure, snapshot,
}
use sctl.Transfer.Chunks.Receive.{after_write, after_check, finalize_if}
use sctl.Transfer.Chunks.{find_transfer, with_phase, all_done}
use sctl.Transfer.Chunks.Upload.{receive_commit, received}
use sctl.Transfer.Run.Invariant.{
  IsSound, mismatch_commit-IsSound, receive_commit-IsSound, adjust-IsSound,
}

with_hash-IsValid : (h id : String) (t : Transfer) → IsValid id t → IsValid id (with_hash h t)
unfolding with_hash
with_hash-IsValid h id t v = ground arith

-- Every chunk of the transfer is there, if the transfer is still there.
abbrev AllThere : TransferManager → String → Type 0
AllThere m id = (t : Transfer) → lookup id m.transfers ≡ some t → all_done t ≡ true

adjust-AllThere :
    (m : TransferManager) (id : String) (h : String)
    → AllThere m id
    → AllThere (adjust m id (with_hash h)) id
unfolding adjust with_hash
adjust-AllThere m id h there t e = elim (Option-cases (lookup id m.transfers)) [
  | inl n ↦ ground (arith, n)
  | inr (u, n) ↦ ground (arith, n, there u n, lookup-insert_self id (with_hash h u) m.transfers)
]

after_rename-IsSound :
    (m : TransferManager) (id : String) (s : Snapshot) (now : ℕ) (r : Io (Unit {0}))
    → IsSound m
    → AllThere m id
    → IsSound (after_rename m id s now r).manager
unfolding after_rename
after_rename-IsSound m id s now (fault k) v there = v
after_rename-IsSound m id s now (done u) v there =
    adjust-IsSound m id (λ t. with_phase t complete) v
      (λ t e h. finished-IsValid id t h (there t e))

after_hash-IsSound :
    (m : TransferManager) (id : String) (s : Snapshot) (a : UploadAnswers) (r : Io String)
    → IsSound m
    → AllThere m id
    → IsSound (after_hash m id s a r).manager
unfolding after_hash
after_hash-IsSound m id s a (fault k) v there = v
after_hash-IsSound m id s a (done actual) v there = elim (Bool-cases (str_eq s.file_hash "")) [
  | inl e ↦ rw e (
      after_rename-IsSound (adjust m id (with_hash actual)) id s a.now a.rename
        (adjust-IsSound m id (with_hash actual) v (λ t _ h. with_hash-IsValid actual id t h))
        (adjust-AllThere m id actual there))
  | inr e ↦ rw e (elim (Bool-cases (str_eq actual s.file_hash)) [
    | inl same ↦ rw same (after_rename-IsSound m id s a.now a.rename v there)
    | inr differs ↦ rw differs (
        adjust-IsSound m id (λ t. with_phase t (failed hash_failure)) v
          (λ t _ h. failed-IsValid id t h hash_failure))
  ])
]

receive_commit-AllThere :
    (m : TransferManager) (id : String) (i len now : ℕ)
    → (receive_commit m id i len now).2 ≡ ok true
    → AllThere (receive_commit m id i len now).0 id
unfolding receive_commit find_transfer received
receive_commit-AllThere m id i len now all t e = elim (Option-cases (lookup id m.transfers)) [
  | inl n ↦ ground (arith, n)
  | inr (u, n) ↦ ground (arith, n, lookup-insert_self id (received u i len now) m.transfers)
]

finalize_if-IsSound :
    (m : TransferManager) (id : String) (i : ℕ) (t : Transfer) (a : UploadAnswers)
    (o : Outcome Bool)
    → IsSound m
    → (o ≡ ok true → AllThere m id)
    → IsSound (finalize_if m id i t a o).manager
unfolding finalize_if verify_and_finalize
finalize_if-IsSound m id i t a panic v there = v
finalize_if-IsSound m id i t a (err e) v there = v
finalize_if-IsSound m id i t a (ok false) v there = v
finalize_if-IsSound m id i t a (ok true) v there =
    after_hash-IsSound m id (snapshot t) a a.hash_file v (there refl)

module _ (hash_bytes : List ℕ → String) (m : TransferManager) (id : String) (v : IsSound m) where
  after_write-IsSound :
      (i : ℕ) (payload : List ℕ) (t : Transfer) (a : UploadAnswers) (r : Io (Unit {0}))
      → IsSound (after_write m id i payload t a r).manager
  unfolding after_write
  after_write-IsSound i payload t a (fault k) = v
  after_write-IsSound i payload t a (done u) =
      finalize_if-IsSound (receive_commit m id i (length payload) a.now).0 id i t a
        (receive_commit m id i (length payload) a.now).2
        (receive_commit-IsSound m id i (length payload) a.now v)
        (receive_commit-AllThere m id i (length payload) a.now)

  pub receive_check-IsSound :
      (i : ℕ) (h : String) (payload : List ℕ) (a : UploadAnswers) (o : Outcome Transfer)
      → IsSound (after_check hash_bytes m id i h payload a o).manager
  unfolding after_check
  receive_check-IsSound i h payload a panic = v
  receive_check-IsSound i h payload a (err e) = v
  receive_check-IsSound i h payload a (ok t) = elim (Bool-cases (str_eq (hash_bytes payload) h)) [
    | inl e ↦ rw e (after_write-IsSound i payload t a a.write)
    | inr e ↦ rw e (mismatch_commit-IsSound m id t.spec.total_chunks a.now v)
  ]
