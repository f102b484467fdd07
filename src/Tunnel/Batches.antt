-- ===== src/Tunnel/Batches.antt =====
-- server/src/tunnel/client.rs: the messages of `batch_output_entries` as a division of the entries.
use sctl.Prelude.{
  ℕ, ◌+◌, ◌≤◌, ◌≡◌, refl, sym, ap, ◌∙◌, true, ◌⊎◌, inl, inr, List, [], ◌∷◌, ◌++◌, some, String,
  codes, map, length, length-append, append_assoc, append-nil, All, arith, Bool-cases,
}
use sctl.Sessions.Entry.{OutputStream, stdout, stderr, system, OutputEntry}
use sctl.Tunnel.Stream.{
  max_batch_entries, max_batch_bytes, bytes, Message, Current, same_stream, fits, add_entry,
  batch_from, batch_output_entries,
}

-- A batch: the first entry and the others.
abbrev pub Batch : Type 0
Batch = OutputEntry × List OutputEntry

abbrev pub entries_of : List Batch → List OutputEntry
entries_of [] = []
entries_of ((e, es) ∷ bs) = (e ∷ es) ++ entries_of bs

abbrev pub text_of : List OutputEntry → List ℕ
text_of [] = []
text_of (e ∷ es) = codes e.payload ++ text_of es

abbrev pub last_of : OutputEntry → List OutputEntry → OutputEntry
last_of e [] = e
last_of e (f ∷ es) = last_of f es

-- The message of a batch has the texts of its entries in order, and the number of the last one.
abbrev pub message_of : String → Batch → Message
message_of id (e, es) = record {
  stream = e.stream;
  session_id = id;
  text = text_of (e ∷ es);
  seq = (last_of e es).seq;
  timestamp_ms = (last_of e es).timestamp_ms;
}

-- One stream, at most 32 entries, and at most 8192 bytes unless it is a single entry.
abbrev pub Fits : Batch → Type 0
Fits (e, es) =
    All (λ (f : OutputEntry). f.stream ≡ e.stream) es
    × (length (e ∷ es) ≤ max_batch_entries)
    × ((es ≡ []) ⊎ (bytes (text_of (e ∷ es)) ≤ max_batch_bytes))

abbrev current_of : Batch → Current
current_of (e, es) = record {
  stream = some e.stream;
  text = text_of (e ∷ es);
  seq = (last_of e es).seq;
  timestamp_ms = (last_of e es).timestamp_ms;
  count = length (e ∷ es);
}

bytes-append : (s t : List ℕ) → bytes (s ++ t) ≡ bytes s + bytes t
bytes-append [] t = omega arith
bytes-append (c ∷ s) t = omega (arith, bytes-append s t)

text_of-append : (es fs : List OutputEntry) → text_of (es ++ fs) ≡ text_of es ++ text_of fs
text_of-append [] fs = refl
text_of-append (e ∷ es) fs =
    ap (λ t. codes e.payload ++ t) (text_of-append es fs)
    ∙ sym (append_assoc (codes e.payload) (text_of es) (text_of fs))

last_of-append :
    (e : OutputEntry) (es : List OutputEntry) (f : OutputEntry) → last_of e (es ++ (f ∷ [])) ≡ f
last_of-append e [] f = refl
last_of-append e (g ∷ es) f = last_of-append g es f

same_stream-eq : (s t : OutputStream) → same_stream (some s) t ≡ true → t ≡ s
unfolding same_stream
same_stream-eq stdout stdout h = refl
same_stream-eq stdout stderr h = cc
same_stream-eq stdout system h = cc
same_stream-eq stderr stdout h = cc
same_stream-eq stderr stderr h = refl
same_stream-eq stderr system h = cc
same_stream-eq system stdout h = cc
same_stream-eq system stderr h = cc
same_stream-eq system system h = refl

All-snoc :
    (P : OutputEntry → Type 0) (es : List OutputEntry) (f : OutputEntry)
    → All P es
    → P f
    → All P (es ++ (f ∷ []))
All-snoc P [] f h k = (k, tt)
All-snoc P (e ∷ es) f h k = (h.0, All-snoc P es f h.1 k)

-- An entry that fits makes the batch one longer.
add-current :
    (e : OutputEntry) (es : List OutputEntry) (f : OutputEntry)
    → add_entry f (current_of (e, es)) ≡ current_of (e, es ++ (f ∷ []))
add-current e es f = ground (
  arith,
  text_of-append (e ∷ es) (f ∷ []),
  append-nil (codes f.payload),
  last_of-append e es f,
  length-append es (f ∷ []),
)

add-Fits :
    (e : OutputEntry) (es : List OutputEntry) (f : OutputEntry)
    → Fits (e, es)
    → fits (current_of (e, es)) f ≡ true
    → Fits (e, es ++ (f ∷ []))
unfolding fits
add-Fits e es f h k = (
  All-snoc (λ (g : OutputEntry). g.stream ≡ e.stream) es f h.0
      (same_stream-eq e.stream f.stream (ground (arith, k))),
  ground (arith, k, length-append es (f ∷ [])),
  inr (
      ground (
        arith,
        k,
        text_of-append (e ∷ es) (f ∷ []),
        append-nil (codes f.payload),
        bytes-append (text_of (e ∷ es)) (codes f.payload),
      )),
)

-- The messages are those of batches that divide the entries, in order, and that fit.
pub record Divided (id : String) (entries : List OutputEntry) (messages : List Message)
    : Type 0 where
  pub batches : List Batch
  pub whole : entries_of batches ≡ entries
  pub told : messages ≡ map (message_of id) batches
  pub fitting : All Fits batches

divide :
    (id : String) (e : OutputEntry) (es fs : List OutputEntry)
    → Fits (e, es)
    → Divided id ((e ∷ es) ++ fs) (batch_from id (current_of (e, es)) fs)
unfolding batch_from
divide id e es [] h = record {
  batches = (e, es) ∷ [];
  whole = refl;
  told = refl;
  fitting = (h, tt);
}
divide id e es (f ∷ fs) h = elim (Bool-cases (fits (current_of (e, es)) f)) [
  | inl more ↦
      let d = divide id e (es ++ (f ∷ [])) fs (add-Fits e es f h more) in
      record {
        batches = d.batches;
        whole = d.whole ∙ ap (λ xs. e ∷ xs) (append_assoc es (f ∷ []) fs);
        told = rw (more, add-current e es f) d.told;
        fitting = d.fitting;
      }
  | inr enough ↦
      let d = divide id f [] fs (tt, omega arith, inl refl) in
      record {
        batches = (e, es) ∷ d.batches;
        whole = ap (λ xs. (e ∷ es) ++ xs) d.whole;
        told =
            rw (enough, ← append-nil (codes f.payload))
              (ap (λ ms. message_of id (e, es) ∷ ms) d.told);
        fitting = (h, d.fitting);
      }
]

-- Any entries of a session's output are sent as batches that divide them in order: each message has
-- the texts of its batch one after the other, all of one stream, with the number and the time of
-- the batch's last entry; and a batch has at most 32 entries, and at most 8192 bytes unless it is a
-- single entry.
pub batch_output_entries-Divided :
    (id : String) (es : List OutputEntry) → Divided id es (batch_output_entries id es)
unfolding batch_output_entries batch_from
batch_output_entries-Divided id [] = record {
  batches = [];
  whole = refl;
  told = refl;
  fitting = tt;
}
batch_output_entries-Divided id (e ∷ es) =
    rw (← append-nil (codes e.payload)) (divide id e [] es (tt, omega arith, inl refl))
