-- ===== src/Transfer/Validity.antt =====
-- server/src/gawdxfer: what holds of every transfer that the manager keeps, and that each change
-- of one transfer keeps it.
use sctl.Prelude.{
  ℕ, zero, suc, ◌+◌, ◌-◌, ◌/◌, ◌≤◌, ◌<◌, ◌^◌, ◌≡◌, refl, Bool, true, false, List, [], ◌∷◌, some,
  String, arith, length, set, all, replicate, length-set,
}
use sctl.Transfer.Types.{
  Phase, init, transferring, paused, verifying, complete, failed, aborted, Transfer,
}
use sctl.Transfer.Start.{compute_chunks}
use sctl.Transfer.Chunks.{with_phase, all_done, id_of, served}
use sctl.Transfer.Chunks.Upload.{mismatched, received}

-- Chunks may still come or be asked for.
abbrev pub is_open : Phase → Bool
is_open init = true
is_open transferring = true
is_open paused = true
is_open _ = false

abbrev pub is_finished : Phase → Bool
is_finished verifying = true
is_finished complete = true
is_finished _ = false

pub record IsValid (id : String) (t : Transfer) : Type 0 where
  pub own : t.spec.transfer_id ≡ id
  pub counted : compute_chunks t.spec.file_size t.spec.chunk_size ≡ some t.spec.total_chunks
  pub slots : length t.progress.chunks_done ≡ t.spec.total_chunks
  pub finished : is_finished t.progress.phase ≡ true → all_done t ≡ true
  pub unfinished : is_open t.progress.phase ≡ true → all_done t ≡ false

-- Rounding up, `f / c` is at least 1 and at most `f`.
pub ceil_bounds : (f c : ℕ) → 0 < f → 0 < c → (0 < (f + c - 1) / c) × ((f + c - 1) / c ≤ f)
ceil_bounds f c hf hc = (grind arith, grind arith)

-- A file shorter than 2^32 bytes has a chunk count that is not cut.
pub compute_chunks_pos :
    (file_size chunk_size n : ℕ)
    → file_size < 2 ^ 32
    → compute_chunks file_size chunk_size ≡ some n
    → 0 < n
unfolding compute_chunks
compute_chunks_pos f c n h e = ground (arith, ceil_bounds f c)

pub all-replicate : (n : ℕ) → 0 < n → all id_of (replicate n false) ≡ false
all-replicate zero h = absurd (omega arith)
all-replicate (suc n) h = refl

pub all-set : (xs : List Bool) (i : ℕ) → all id_of xs ≡ true → all id_of (set xs i true) ≡ true
all-set [] i h = refl
all-set (x ∷ xs) zero h = ground arith
all-set (x ∷ xs) (suc i) h = ground (arith, all-set xs i)

module _ (id : String) (t : Transfer) (v : IsValid id t) where
  pub served-IsValid : (i len now : ℕ) → IsValid id (served t i len now)
  unfolding served
  served-IsValid i len now =
      ground (arith, length-set t.progress.chunks_done i true, all-set t.progress.chunks_done i)

  pub received-IsValid : (i len now : ℕ) → IsValid id (received t i len now)
  unfolding received
  received-IsValid i len now =
      ground (arith, length-set t.progress.chunks_done i true, all-set t.progress.chunks_done i)

  pub mismatched-IsValid : (retries total now : ℕ) → IsValid id (mismatched t retries total now)
  unfolding mismatched
  mismatched-IsValid retries total now = ground arith

  pub finished-IsValid : all_done t ≡ true → IsValid id (with_phase t complete)
  finished-IsValid h = ground arith

  pub failed-IsValid : (reason : String) → IsValid id (with_phase t (failed reason))
  failed-IsValid reason = ground arith

  pub aborted-IsValid : IsValid id (with_phase t aborted)
  aborted-IsValid = ground arith
