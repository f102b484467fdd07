-- ===== src/Transfer/Resuming.antt =====
-- server/src/gawdxfer/manager.rs, `resume`: the client learns which chunks it need not send again.
use sctl.Prelude.{
  ℕ, zero, suc, ◌+◌, ◌<◌, ◌≡◌, refl, ap, subst, Bool, false, List, [], ◌∷◌, none, some, String,
  arith, length, count, contains, get_elem?, string_eq, Bool-cases, inl, inr,
}
use sctl.Prelude.Map.{lookup, lookup-insert_self}
use sctl.Transfer.Types.{Transfer, TransferManager, Post}
use sctl.Transfer.Chunks.{find_transfer, can_serve, id_of, chunks_done_count}
use sctl.Transfer.Lifecycle.{resume, resumed, received_from}

abbrev pub is_done : List Bool → ℕ → Bool
is_done bs i = elim (get_elem? bs i) [ none ↦ false | some b ↦ b ]

received_from-above : (bs : List Bool) (j k : ℕ) → k < j → contains k (received_from j bs) ≡ false
unfolding received_from
received_from-above [] j k h = refl
received_from-above (b ∷ bs) j k h = ground (arith, received_from-above bs (suc j) k)

received_from-is_done :
    (bs : List Bool) (j i : ℕ) → contains (j + i) (received_from j bs) ≡ is_done bs i
unfolding received_from
received_from-is_done [] j i = refl
received_from-is_done (b ∷ bs) j zero = ground (arith, received_from-above bs (suc j) (j + 0))
received_from-is_done (b ∷ bs) j (suc i) =
    let e : suc j + i ≡ j + suc i = omega arith in
    ground
      (arith, received_from-is_done bs (suc j) i, ap (λ k. contains k (received_from (suc j) bs)) e)

length-received_from : (bs : List Bool) (j : ℕ) → length (received_from j bs) ≡ count id_of bs
unfolding received_from
length-received_from [] j = refl
length-received_from (b ∷ bs) j = ground (arith, length-received_from bs (suc j))

-- A resume that succeeds reports exactly the indices of the chunks that are done, as many as the
-- status counts, and the transfer runs with the same chunks done.
pub resume-reports :
    (m : TransferManager) (id : String) (now : ℕ) (t : Transfer)
    → lookup id m.transfers ≡ some t
    → Post
        (λ r.
          ((i : ℕ) → contains i r.1.chunks_received ≡ is_done t.progress.chunks_done i)
          × (length r.1.chunks_received ≡ chunks_done_count t)
          × (lookup id r.0.transfers ≡ some (resumed t now)))
        (resume m id now)
unfolding resume find_transfer
resume-reports m id now t e =
    rw (e, resume)
      (elim (Bool-cases (can_serve t.progress.phase)) [
        | inl b ↦ rw b (
          λ i.
              subst
                (λ k.
                  contains k (received_from 0 t.progress.chunks_done)
                  ≡ is_done t.progress.chunks_done i)
                (omega arith) (received_from-is_done t.progress.chunks_done 0 i),
          length-received_from t.progress.chunks_done 0,
          lookup-insert_self id (resumed t now) m.transfers,
        )
        | inr b ↦ rw b tt
      ])
