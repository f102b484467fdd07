-- ===== src/Mcp/Counting.antt =====
-- mcp/src/websocket.rs with server/src/tunnel/client.rs: what the client counts as dropped.
use sctl.Prelude.{
  ℕ, suc, ◌+◌, ◌<◌, ◌^◌, ◌≡◌, refl, sym, ap, ◌∙◌, subst, List, [], ◌∷◌, ◌++◌, String, map, length,
  length-append, arith,
}
use sctl.Prelude.Ring.{Numbered}
use sctl.Sessions.Entry
use sctl.Sessions.Buffer.History.{Pushed, numbered, length-numbered}
use sctl.Tunnel.Stream.{Message}
use sctl.Tunnel.Batches.{Batch, entries_of, last_of, message_of, Divided}
use sctl.Mcp.Buffer.{OutputEntry, SessionBuffer, push, push_each}

abbrev seq_of : Entry.OutputEntry → ℕ
seq_of e = e.seq

last-Numbered :
    (n : ℕ) (e : Entry.OutputEntry) (es rest : List Entry.OutputEntry)
    → Numbered seq_of (suc n) ((e ∷ es) ++ rest)
    → ((last_of e es).seq ≡ suc n + length es) × Numbered seq_of (suc (suc n + length es)) rest
last-Numbered n e [] rest h =
    let k : suc (suc n) ≡ suc (suc n + 0) = omega arith in
    (omega (arith, h.0), subst (λ m. Numbered seq_of m rest) k h.1)
last-Numbered n e (f ∷ es) rest h =
    let r = last-Numbered (suc n) f es rest h.1 in
    let k : suc (suc (suc n) + length es) ≡ suc (suc n + suc (length es)) = omega arith in
    (omega (arith, r.0), subst (λ m. Numbered seq_of m rest) k r.1)

numbered-Numbered : (n : ℕ) (ps : List Pushed) → Numbered seq_of n (numbered n ps)
numbered-Numbered n [] = tt
numbered-Numbered n (p ∷ ps) = (refl, numbered-Numbered (suc n) ps)

abbrev batch_seq : Batch → ℕ
batch_seq (e, es) = (last_of e es).seq

-- A message whose number is `k` above the last one.
push-counts :
    (b : SessionBuffer) (r : OutputEntry) (k : ℕ)
    → 0 < b.last_seq
    → r.seq ≡ suc b.last_seq + k
    → suc b.last_seq + k < 2 ^ 64
    → b.dropped_count + k < 2 ^ 64
    → ((push b r).dropped_count ≡ b.dropped_count + k) × ((push b r).last_seq ≡ r.seq)
unfolding push
push-counts b r k p e fits room = (ground arith, ground arith)

count-batches :
    (bs : List Batch) (received : List OutputEntry) (b : SessionBuffer)
    → 0 < b.last_seq
    → Numbered seq_of (suc b.last_seq) (entries_of bs)
    → map OutputEntry.seq received ≡ map batch_seq bs
    → suc (b.last_seq + length (entries_of bs)) < 2 ^ 64
    → b.dropped_count + length (entries_of bs) < 2 ^ 64
    → (push_each b received).dropped_count + length bs ≡ b.dropped_count + length (entries_of bs)
unfolding push_each
count-batches [] [] b p v e fits room = omega arith
count-batches [] (r ∷ rs) b p v e fits room = absurd (ground (arith, e))
count-batches (x ∷ bs) [] b p v e fits room = absurd (ground (arith, e))
count-batches ((f, fs) ∷ bs) (r ∷ rs) b p v e fits room =
    let size = length-append (f ∷ fs) (entries_of bs) in
    let l = last-Numbered b.last_seq f fs (entries_of bs) v in
    let head : r.seq ≡ (last_of f fs).seq = ground (arith, e) in
    let tail : map OutputEntry.seq rs ≡ map batch_seq bs = ground (arith, e) in
    let c =
      push-counts b r (length fs) p (omega (arith, head, l.0)) (omega (arith, size))
        (omega (arith, size)) in
    let on : suc (suc b.last_seq + length fs) ≡ suc (push b r).last_seq =
      omega (arith, c.1, head, l.0) in
    let rest =
      count-batches bs rs (push b r) (omega (arith, on))
        (subst (λ m. Numbered seq_of m (entries_of bs)) on l.1) tail (omega (arith, on, size))
        (omega (arith, c.0, size)) in
    omega (arith, rest, c.0, size)

map-seq :
    (id : String) (bs : List Batch) → map Message.seq (map (message_of id) bs) ≡ map batch_seq bs
map-seq id [] = refl
map-seq id (b ∷ bs) = ap (λ ns. batch_seq b ∷ ns) (map-seq id bs)

length-map : (id : String) (bs : List Batch) → length (map (message_of id) bs) ≡ length bs
length-map id [] = refl
length-map id (b ∷ bs) = ap suc (length-map id bs)

-- Where the output after the number of the client's last entry comes through the tunnel whole, in
-- batches that divide it, the client counts all of it as dropped but one entry for each message.
pub push_each-batched :
    (id : String) (b : SessionBuffer) (ps : List Pushed) (messages : List Message)
    (received : List OutputEntry)
    → 0 < b.last_seq
    → Divided id (numbered (suc b.last_seq) ps) messages
    → map OutputEntry.seq received ≡ map Message.seq messages
    → suc (b.last_seq + length ps) < 2 ^ 64
    → b.dropped_count + length ps < 2 ^ 64
    → (push_each b received).dropped_count + length messages ≡ b.dropped_count + length ps
push_each-batched id b ps messages received p d e fits room =
    let size : length (entries_of d.batches) ≡ length ps =
      ap length d.whole ∙ length-numbered (suc b.last_seq) ps in
    let count : length messages ≡ length d.batches = ap length d.told ∙ length-map id d.batches in
    let r =
      count-batches d.batches received b p
        (subst (Numbered seq_of (suc b.last_seq)) (sym d.whole)
          (numbered-Numbered (suc b.last_seq) ps))
        (e ∙ ap (map Message.seq) d.told ∙ map-seq id d.batches) (omega (arith, size))
        (omega (arith, size)) in
    omega (arith, r, size, count)
