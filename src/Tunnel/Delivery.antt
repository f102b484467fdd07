-- ===== src/Tunnel/Delivery.antt =====
-- server/src/tunnel/client.rs with server/src/sessions/buffer.rs: a session's subscriber, round by
-- round, against everything that is pushed into the session's buffer.
use sctl.Prelude.{
  ℕ, suc, ◌+◌, ◌<◌, ◌≤◌, ◌^◌, ◌≡◌, refl, sym, ap, ◌∙◌, true, false, List, [], ◌∷◌, ◌++◌, String,
  map, length, length-append, append_assoc, append-nil, All, arith, back,
}
use sctl.Prelude.Ring.{capacity}
use sctl.Sessions.Entry.{OutputEntry}
use sctl.Sessions.Buffer.{OutputBuffer, new, has_entries_since}
use sctl.Sessions.Buffer.History.{Pushed, push_all, numbered, numbered-append, push_all-append}
use sctl.Sessions.Buffer.Reading.{read_since_resumes, has_entries_since-push_all}
use sctl.Tunnel.Stream.{Message, batch_output_entries, moved, subscriber_round}
use sctl.Tunnel.Batches.{Batch, entries_of, message_of, Fits, Divided, batch_output_entries-Divided}

-- Before each round of the subscriber, some output is pushed.
unfoldable pub deliver : String → OutputBuffer → ℕ → List (List Pushed) → List Message
deliver id b cursor [] = []
deliver id b cursor (qs ∷ rounds) =
    let (messages, next) = subscriber_round id (push_all b qs) cursor in
    messages ++ deliver id (push_all b qs) next rounds

abbrev pub all_of : List (List Pushed) → List Pushed
all_of [] = []
all_of (qs ∷ rounds) = qs ++ all_of rounds

entries_of-append : (cs bs : List Batch) → entries_of (cs ++ bs) ≡ entries_of cs ++ entries_of bs
entries_of-append [] bs = refl
entries_of-append ((e, es) ∷ cs) bs =
    ap (λ xs. (e ∷ es) ++ xs) (entries_of-append cs bs)
    ∙ sym (append_assoc (e ∷ es) (entries_of cs) (entries_of bs))

map-append :
    (id : String) (cs bs : List Batch)
    → map (message_of id) (cs ++ bs) ≡ map (message_of id) cs ++ map (message_of id) bs
map-append id [] bs = refl
map-append id (b ∷ cs) bs = ap (λ ms. message_of id b ∷ ms) (map-append id cs bs)

Fits-append : (cs bs : List Batch) → All Fits cs → All Fits bs → All Fits (cs ++ bs)
Fits-append [] bs h k = k
Fits-append (b ∷ cs) bs h k = (h.0, Fits-append cs bs h.1 k)

Divided-append :
    (id : String) (xs ys : List OutputEntry) (ms ns : List Message)
    → Divided id xs ms
    → Divided id ys ns
    → Divided id (xs ++ ys) (ms ++ ns)
Divided-append id xs ys ms ns d e = record {
  batches = d.batches ++ e.batches;
  whole = entries_of-append d.batches e.batches ∙ ground (arith, d.whole, e.whole);
  told = ground (arith, d.told, e.told, map-append id d.batches e.batches);
  fitting = Fits-append d.batches e.batches d.fitting e.fitting;
}

moved-numbered :
    (c n : ℕ) (q : Pushed) (qs : List Pushed)
    → moved c (back (numbered (suc n) (q ∷ qs))) ≡ n + length (q ∷ qs)
moved-numbered c n q [] = omega arith
moved-numbered c n q (r ∷ qs) = moved-numbered c (suc n) r qs ∙ omega arith

-- What a round reads, when at most a bufferful has been pushed since the last one.
subscriber_round-read :
    (id : String) (m : ℕ) (ps qs : List Pushed)
    → suc (length ps + length qs) < 2 ^ 64
    → length qs ≤ capacity m
    → subscriber_round id (push_all (push_all (new m) ps) qs) (length ps)
      ≡ (batch_output_entries id (numbered (suc (length ps)) qs), length (ps ++ qs))
unfolding subscriber_round
subscriber_round-read id m ps [] fits h =
    let none_new : has_entries_since (push_all (new m) ps) (length ps) ≡ false =
      has_entries_since-push_all m ps (length ps) (omega arith) ∙ ground arith in
    rw (none_new, append-nil) refl
subscriber_round-read id m ps (q ∷ qs) fits h =
    let some_new : has_entries_since (push_all (push_all (new m) ps) (q ∷ qs)) (length ps) ≡ true =
      rw (← push_all-append (new m) ps (q ∷ qs)) (
        has_entries_since-push_all m (ps ++ (q ∷ qs)) (length ps)
          (omega (arith, length-append ps (q ∷ qs)))
        ∙ ground (arith, length-append ps (q ∷ qs))) in
    let entries = read_since_resumes m ps (q ∷ qs) fits h in
    rw (some_new, entries)
      (ap (λ n. (batch_output_entries id (numbered (suc (length ps)) (q ∷ qs)), n))
        (moved-numbered (length ps) (length ps) q qs ∙ sym (length-append ps (q ∷ qs))))

-- A subscriber that starts at the end of the output, and before each of whose rounds at most a
-- bufferful is pushed, sends exactly what is pushed from then on: its messages are those of batches
-- that divide all these entries in order, with no gap and nothing twice.
pub deliver-Divided :
    (id : String) (m : ℕ) (ps : List Pushed) (rounds : List (List Pushed))
    → suc (length ps + length (all_of rounds)) < 2 ^ 64
    → All (λ qs. length qs ≤ capacity m) rounds
    → Divided id
        (numbered (suc (length ps)) (all_of rounds))
        (deliver id (push_all (new m) ps) (length ps) rounds)
unfolding deliver
deliver-Divided id m ps [] fits h = record { batches = []; whole = refl; told = refl; fitting = tt }
deliver-Divided id m ps (qs ∷ rounds) fits h =
    let n = length-append ps qs in
    let k = length-append qs (all_of rounds) in
    let e : suc (length ps) + length qs ≡ suc (length (ps ++ qs)) = omega (arith, n) in
    let now = batch_output_entries-Divided id (numbered (suc (length ps)) qs) in
    let later = deliver-Divided id m (ps ++ qs) rounds (omega (arith, n, k)) h.1 in
    rw
      (
        subscriber_round-read id m ps qs (omega (arith, k)) h.0,
        numbered-append (suc (length ps)) qs (all_of rounds),
        e,
        ← push_all-append (new m) ps qs,
      )
      (Divided-append id (numbered (suc (length ps)) qs)
        (numbered (suc (length (ps ++ qs))) (all_of rounds))
        (batch_output_entries id (numbered (suc (length ps)) qs))
        (deliver id (push_all (new m) (ps ++ qs)) (length (ps ++ qs)) rounds) now later)
