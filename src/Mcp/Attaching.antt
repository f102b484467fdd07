-- ===== src/Mcp/Attaching.antt =====
-- mcp/src/websocket.rs: what a second attachment to a session leaves in its buffer.
use sctl.Prelude.{
  ℕ, ◌+◌, ◌≤◌, ◌<◌, ◌≡◌, refl, sym, ap, ◌∙◌, Bool, List, [], ◌∷◌, ◌++◌, Option, none, some, String,
  ltb, length, length-append, arith, filter, All, append_assoc, append-nil,
}
use sctl.Prelude.Ring.{push_bounded}
use sctl.Mcp.Buffer.{OutputEntry, SessionBuffer, push, push_each, entries_since, max_buffer_entries}
use sctl.Mcp.Dispatch.{attach, with_pty, with_status}

push_each-entries :
    (b : SessionBuffer) (es : List OutputEntry)
    → length b.entries + length es ≤ max_buffer_entries
    → (push_each b es).entries ≡ b.entries ++ es
unfolding push_each push
push_each-entries b [] h = sym (append-nil b.entries)
push_each-entries b (e ∷ es) h =
    let room : push_bounded max_buffer_entries b.entries e ≡ b.entries ++ (e ∷ []) =
      ground (arith, h) in
    push_each-entries (push b e) es
      (omega (arith, ap length room, length-append b.entries (e ∷ []), h))
    ∙ ap (λ xs. xs ++ es) room
    ∙ append_assoc b.entries (e ∷ []) es

updated-entries :
    (status : Option String) (code : Option ℕ) (pty : Option Bool) (b : SessionBuffer)
    → (with_pty pty (with_status status code b)).entries ≡ b.entries
updated-entries none code none b = refl
updated-entries none code (some p) b = refl
updated-entries (some s) code none b = ground arith
updated-entries (some s) code (some p) b = ground arith

filter-All :
    (since : ℕ) (es : List OutputEntry)
    → All (λ (e : OutputEntry). since < e.seq) es
    → filter (λ (e : OutputEntry). ltb since e.seq) es ≡ es
filter-All since [] h = refl
filter-All since (e ∷ es) h = ground (arith, h.0, filter-All since es h.1)

All-twice :
    (since : ℕ) (es fs : List OutputEntry)
    → All (λ (e : OutputEntry). since < e.seq) es
    → All (λ (e : OutputEntry). since < e.seq) fs
    → All (λ (e : OutputEntry). since < e.seq) (es ++ fs)
All-twice since [] fs h k = k
All-twice since (e ∷ es) fs h k = (h.0, All-twice since es fs h.1 k)

-- If the buffer holds nothing but entries after `since`, and at most half of the 5000 that it may
-- hold, a client that attaches from there and gets the same entries from the server again gives its
-- reader each of them twice.
pub attach-twice :
    (b : SessionBuffer) (since : ℕ) (status : Option String) (code : Option ℕ) (pty : Option Bool)
    → All (λ (e : OutputEntry). since < e.seq) b.entries
    → length b.entries + length b.entries ≤ max_buffer_entries
    → entries_since (attach b.entries status code pty b) since ≡ b.entries ++ b.entries
unfolding entries_since attach
attach-twice b since status code pty later room =
    let same = updated-entries status code pty b in
    let held =
      push_each-entries (with_pty pty (with_status status code b)) b.entries
        (omega (arith, ap length same, room))
      ∙ ap (λ xs. xs ++ b.entries) same in
    ap (filter (λ (e : OutputEntry). ltb since e.seq)) held
    ∙ filter-All since (b.entries ++ b.entries) (All-twice since b.entries b.entries later later)
