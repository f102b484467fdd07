-- ===== src/Tunnel/Replies.antt =====
-- server/src/tunnel/relay.rs: whom the messages of a device reach.
use sctl.Prelude.{
  ℕ, ◌≤◌, ◌≡◌, refl, ap, ◌∙◌, false, List, [], ◌∷◌, none, some, length, ◌==◌, if◌then◌else◌,
  codes_eq, codes_key, string_eq, arith, Bool-cases, inl, inr, contains,
}
use sctl.Prelude.Map.{lookup, lookup-insert}
use sctl.Tunnel.Clients.{
  ClientId, Packet, Queue, Clients, reply, reply_at, put, send_output, drop_one, queue_size, tag,
  untag, untagged, Packet,
}
use sctl.Tunnel.Routing.{answer, route_of, from_device, from_client, or_empty_id}

-- An id without a colon, such as a UUID, is split from the request again, whatever the request's
-- own id holds.
untag-tag :
    (id : ClientId) (rid : List ℕ) → contains b':' id ≡ false → untag (tag id rid) ≡ some (id, rid)
untag-tag [] rid h = refl
untag-tag (c ∷ id) rid h = elim (Bool-cases (c == b':')) [
  | inl colon ↦ absurd (ground (arith, colon, h))
  | inr other ↦ rw (other, untag-tag id rid (ground (arith, other, h)))
]

reply_at-lookup :
    (st : Clients) (id j : ClientId) (p : Packet) (q : Queue)
    → q.is_closed ≡ false
    → lookup j (reply_at st id p (some q)).clients
      ≡ (if codes_eq id j then some (put p q) else lookup j st.clients)
reply_at-lookup st id j p q h = ground (arith, h, lookup-insert id j (put p q) st.clients)

-- The device's answer to a client's request comes to that client, with the request's own id, and to
-- no other; and to none of the relay's own requests.
pub answer-returns :
    (st : Clients) (id : ClientId) (request response : Packet) {q : Queue}
    → contains b':' id ≡ false
    → lookup id st.clients ≡ some q
    → q.is_closed ≡ false
    → route_of response.kind ≡ answer
    → response.request_id ≡ (from_client st id request).1.request_id
    → let (after, resolved) = from_device st response in
      let original = or_empty_id request.request_id in
      (resolved ≡ none)
      × ((j : ClientId)
          → lookup j after.clients ≡ (
              if codes_eq id j
              then some (put (record response { request_id = some original }) q)
              else lookup j st.clients))
unfolding from_device from_client reply
answer-returns st id request response {q} plain found is_open kind same =
    let split : untagged response.request_id ≡ some (id, or_empty_id request.request_id) =
      ap untagged same ∙ untag-tag id (or_empty_id request.request_id) plain in
    rw (kind, split, found)
      (
        refl,
        λ j.
            reply_at-lookup st id j
              (record response { request_id = some (or_empty_id request.request_id) }) q is_open,
      )

-- Where a client's queue is full, a piece of session output is counted as dropped, and nothing is
-- queued: the notice of the gap, which goes to the same queue, is lost as well.
pub send_output-full :
    (st : Clients) (id : ClientId) (p : Packet) {q : Queue}
    → lookup id st.clients ≡ some q
    → queue_size ≤ length q.items
    → send_output st p id ≡ drop_one st
unfolding send_output
send_output-full st id p {q} found full = rw found (ground (arith, full))
