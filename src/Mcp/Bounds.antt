-- ===== src/Mcp/Bounds.antt =====
-- mcp/src/websocket.rs: what holds of the client's buffers whatever the server sends.
use sctl.Prelude.{
  ℕ, ◌-◌, ◌≤◌, ◌≡◌, refl, Bool, List, [], ◌∷◌, ◌++◌, Option, none, some, String, ltb, if◌then◌else◌,
  length, length-append, arith, All, string_eq, str_eq, if-cases, leb, pop_front,
}
use sctl.Prelude.Map.{lookup, Entries, Entries-insert}
use sctl.Mcp.Buffer.{OutputEntry, SessionBuffer, exited, push, push_each, max_buffer_entries}
use sctl.Mcp.Dispatch.{
  ServerMsg, stream, session_exited, session_started, session_listed, session_attached,
  session_closed, error, ai_status_ack, ai_status_changed, session_gap, no_action, Connection,
  with_session, update_at, exit_session, gap_session, attach, with_pty, with_status,
  dispatch_message, dispatch_all, unless_blank,
}

-- No more than the buffer may hold, and no entry above the last number.
pub record IsBounded (b : SessionBuffer) : Type 0 where
  pub size : length b.entries ≤ max_buffer_entries
  pub below : All (λ (e : OutputEntry). e.seq ≤ b.last_seq) b.entries

All-le :
    (m n : ℕ) (es : List OutputEntry)
    → m ≤ n
    → All (λ (e : OutputEntry). e.seq ≤ m) es
    → All (λ (e : OutputEntry). e.seq ≤ n) es
All-le m n [] h a = tt
All-le m n (e ∷ es) h a = (omega (arith, a.0), All-le m n es h a.1)

All-push :
    (n : ℕ) (es : List OutputEntry) (e : OutputEntry)
    → All (λ (x : OutputEntry). x.seq ≤ n) es
    → e.seq ≤ n
    → All (λ (x : OutputEntry). x.seq ≤ n) (es ++ (e ∷ []))
All-push n [] e a h = (h, tt)
All-push n (x ∷ es) e a h = (a.0, All-push n es e a.1 h)

pub All-pop_front :
    (n : ℕ) (es : List OutputEntry)
    → All (λ (x : OutputEntry). x.seq ≤ n) es
    → All (λ (x : OutputEntry). x.seq ≤ n) (pop_front es)
All-pop_front n [] a = tt
All-pop_front n (x ∷ es) a = a.1

length-pop_front : (es : List OutputEntry) → length (pop_front es) ≡ length es - 1
length-pop_front [] = omega arith
length-pop_front (x ∷ es) = omega arith

pub push-IsBounded : (b : SessionBuffer) (e : OutputEntry) → IsBounded b → IsBounded (push b e)
unfolding push
push-IsBounded b e v = record {
  size = ground (
    arith,
    v.size,
    length-append b.entries (e ∷ []),
    length-append (pop_front b.entries) (e ∷ []),
    length-pop_front b.entries,
  );
  below =
      let grown = All-le b.last_seq last b.entries (ground arith) v.below in
      All-push last
        (if leb max_buffer_entries (length b.entries) then pop_front b.entries else b.entries) e
        (if-cases (All (λ (x : OutputEntry). x.seq ≤ last))
          (leb max_buffer_entries (length b.entries)) (λ _. All-pop_front last b.entries grown)
          (λ _. grown))
        (ground arith);
}
  where
    last : ℕ
    last = if ltb b.last_seq e.seq then e.seq else b.last_seq

push_each-IsBounded :
    (es : List OutputEntry) (b : SessionBuffer) → IsBounded b → IsBounded (push_each b es)
unfolding push_each
push_each-IsBounded [] b v = v
push_each-IsBounded (e ∷ es) b v = push_each-IsBounded es (push b e) (push-IsBounded b e v)

exit_session-IsBounded :
    (code : Option ℕ) (b : SessionBuffer) → IsBounded b → IsBounded (exit_session code b)
unfolding exit_session
exit_session-IsBounded code b v = push-IsBounded _ _ (record { size = v.size; below = v.below })

gap_session-IsBounded :
    (reason : String) (b : SessionBuffer) → IsBounded b → IsBounded (gap_session reason b)
unfolding gap_session
gap_session-IsBounded reason b v = push-IsBounded b _ v

with_status-IsBounded :
    (status : Option String) (code : Option ℕ) (b : SessionBuffer)
    → IsBounded b
    → IsBounded (with_status status code b)
with_status-IsBounded none code b v = v
with_status-IsBounded (some status) code b v =
    if-cases IsBounded (str_eq status "exited") (λ _. record { size = v.size; below = v.below })
      (λ _. record { size = v.size; below = v.below })

with_pty-IsBounded :
    (pty : Option Bool) (b : SessionBuffer) → IsBounded b → IsBounded (with_pty pty b)
with_pty-IsBounded none b v = v
with_pty-IsBounded (some pty) b v = record { size = v.size; below = v.below }

attach-IsBounded :
    (entries : List OutputEntry) (status : Option String) (code : Option ℕ) (pty : Option Bool)
    (b : SessionBuffer)
    → IsBounded b
    → IsBounded (attach entries status code pty b)
unfolding attach
attach-IsBounded entries status code pty b v =
    let w = push_each-IsBounded entries (with_pty pty (with_status status code b)) (
      with_pty-IsBounded pty (with_status status code b) (with_status-IsBounded status code b v)) in
    record { size = w.size; below = w.below }

abbrev pub AllBounded : Connection → Type 0
AllBounded c = Entries (λ (sid : String) b. IsBounded b) c.sessions

with_session-AllBounded :
    (sid : String) (f : SessionBuffer → SessionBuffer) (c : Connection)
    → ((b : SessionBuffer) → IsBounded b → IsBounded (f b))
    → AllBounded c
    → AllBounded (with_session sid f c)
unfolding with_session
with_session-AllBounded sid f c keep v = found (lookup sid c.sessions) refl
  where
    found :
        (o : Option SessionBuffer) → lookup sid c.sessions ≡ o → AllBounded (update_at f sid o c)
    found none e = v
    found (some b) e =
        Entries-insert (λ (s : String) b. IsBounded b) sid (f b) c.sessions (keep b (v sid b e)) v

blank-AllBounded :
    (sid : String) (c d : Connection)
    → AllBounded c
    → AllBounded d
    → AllBounded (unless_blank sid c d)
blank-AllBounded sid c d v w = if-cases AllBounded (str_eq sid "") (λ _. v) (λ _. w)

dispatch-AllBounded :
    (m : ServerMsg) (c : Connection) → AllBounded c → AllBounded (dispatch_message m c)
unfolding dispatch_message
dispatch-AllBounded (stream none) c v = v
dispatch-AllBounded (stream (some (sid, e))) c v =
    with_session-AllBounded sid (λ b. push b e) c (λ b w. push-IsBounded b e w) v
dispatch-AllBounded (session_exited sid code) c v =
    blank-AllBounded sid c (with_session sid (exit_session code) c) v
      (with_session-AllBounded sid (exit_session code) c (exit_session-IsBounded code) v)
dispatch-AllBounded (session_started msg) c v = v
dispatch-AllBounded (session_listed msg) c v = v
dispatch-AllBounded (session_attached sid none status code pty) c v = v
dispatch-AllBounded (session_attached sid (some entries) status code pty) c v =
    with_session-AllBounded sid (attach entries status code pty) c
      (attach-IsBounded entries status code pty) v
dispatch-AllBounded (session_closed sid) c v =
    blank-AllBounded sid c (with_session sid (λ b. record b { status = exited }) c) v (
      with_session-AllBounded sid (λ b. record b { status = exited }) c
        (λ b w. record { size = w.size; below = w.below }) v)
dispatch-AllBounded (error code none) c v =
    if-cases AllBounded (str_eq code "AI_NOT_ALLOWED") (λ _. v) (λ _. v)
dispatch-AllBounded (error code (some sid)) c v =
    if-cases AllBounded (str_eq code "AI_NOT_ALLOWED") (λ _. v)
      (λ _.
        with_session-AllBounded sid (λ b. record b { status = exited; exit_code = none }) c
          (λ b w. record { size = w.size; below = w.below }) v)
dispatch-AllBounded (ai_status_ack sid working) c v =
    if-cases (λ (d : Connection). AllBounded d) (str_eq sid "") (λ _. v) (λ _. v)
dispatch-AllBounded (ai_status_changed sid working) c v = v
dispatch-AllBounded (session_gap sid reason) c v =
    blank-AllBounded sid c (with_session sid (gap_session reason) c) v
      (with_session-AllBounded sid (gap_session reason) c (gap_session-IsBounded reason) v)
dispatch-AllBounded no_action c v = v

-- Whatever messages come, in whatever order: if at first every session's buffer has at most 5000
-- entries and none above its last number, then so it is after them.
pub dispatch_all-AllBounded :
    (ms : List ServerMsg) (c : Connection) → AllBounded c → AllBounded (dispatch_all ms c)
unfolding dispatch_all
dispatch_all-AllBounded [] c v = v
dispatch_all-AllBounded (m ∷ ms) c v =
    dispatch_all-AllBounded ms (dispatch_message m c) (dispatch-AllBounded m c v)
