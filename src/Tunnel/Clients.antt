-- ===== src/Tunnel/Clients.antt =====
-- server/src/tunnel/relay.rs: the clients of a device at the relay, and the routing of what the
-- device sends. Of a message, the model has its type, its session, its request id and the rest as
-- one text. A client is known by the codes of its id; no other task runs in the middle of a step.
use sctl.Prelude.{
  ℕ, Bool, true, false, not, ◌||◌, List, [], ◌∷◌, ◌++◌, Option, none, some, String, length, leb,
  ◌==◌, if◌then◌else◌, filter, codes_eq, codes_key, string_eq,
}
use sctl.Prelude.Map.{lookup, insert}
use sctl.Sessions.Buffer.{add_u64}

abbrev pub ClientId : Type 0
ClientId = List ℕ

pub record Packet : Type 0 where
  pub kind : String
  pub session_id : Option String
  pub request_id : Option (List ℕ)
  pub body : String

-- The channel to a client's writer; it is closed when the writer has ended.
pub record Queue : Type 0 where
  pub items : List Packet
  pub is_closed : Bool

pub record Clients : Type 0 where
  pub clients : List (ClientId × Queue)
  pub session_subscriptions : List (String × List ClientId)
  pub dropped_messages : ℕ

abbrev pub queue_size : ℕ
queue_size = 256

abbrev pub put : Packet → Queue → Queue
put p q = record q { items = q.items ++ (p ∷ []) }

-- `try_send`: `none` if the queue is full or closed.
abbrev pub try_send : Packet → Queue → Option Queue
try_send p q = if q.is_closed || leb queue_size (length q.items) then none else some (put p q)

abbrev pub keep_queue : Clients → ClientId → Option Queue → Clients
keep_queue st id none = st
keep_queue st id (some q) = record st { clients = insert id q st.clients }

abbrev pub drop_one : Clients → Clients
drop_one st = record st { dropped_messages = add_u64 st.dropped_messages 1 }

abbrev pub gap : Option String → Packet
gap sid = record {
  kind = "session.gap";
  session_id = sid;
  request_id = none;
  body = "backpressure";
}

-- A second `try_send`, whose failure is ignored.
abbrev pub notify_gap : Clients → ClientId → Packet → Queue → Clients
notify_gap st id p q = keep_queue st id (try_send (gap p.session_id) q)

abbrev pub after_output : Clients → ClientId → Packet → Queue → Option Queue → Clients
after_output st id p q none = drop_one (notify_gap st id p q)
after_output st id p q (some sent) = keep_queue st id (some sent)

abbrev pub output_at : Clients → Packet → ClientId → Option Queue → Clients
output_at st p id none = st
output_at st p id (some q) = after_output st id p q (try_send p q)

-- Session output to one subscriber.
unfoldable pub send_output : Clients → Packet → ClientId → Clients
send_output st p id = output_at st p id (lookup id st.clients)

unfoldable pub send_outputs : Clients → Packet → List ClientId → Clients
unfolding send_output
send_outputs st p [] = st
send_outputs st p (id ∷ ids) = send_outputs (send_output st p id) p ids

abbrev pub subscribers : Option (List ClientId) → List ClientId
subscribers none = []
subscribers (some ids) = ids

abbrev pub watching : Clients → Option String → List ClientId
watching st none = []
watching st (some sid) = subscribers (lookup sid st.session_subscriptions)

-- A message to every client, without a notice of the gap.
abbrev pub offer_all :
    Packet → List (ClientId × Queue) → List (ClientId × Queue) × ℕ → List (ClientId × Queue) × ℕ
offer_all p [] acc = acc
offer_all p ((id, q) ∷ m) (done, dropped) = offer_all p m (elim (try_send p q) [
  | none ↦ (done ++ ((id, q) ∷ []), add_u64 dropped 1)
  | some sent ↦ (done ++ ((id, sent) ∷ []), dropped)
])

unfoldable pub broadcast : Clients → Packet → Clients
broadcast st p =
    let (clients, dropped) = offer_all p st.clients ([], st.dropped_messages) in
    record st { clients = clients; dropped_messages = dropped }

-- `format!("{client_id}:{original_rid}")`, and the split at the first colon.
abbrev pub tag : ClientId → List ℕ → List ℕ
tag id rid = id ++ (b':' ∷ rid)

abbrev pub prefixed : ℕ → Option (ClientId × List ℕ) → Option (ClientId × List ℕ)
prefixed c none = none
prefixed c (some (id, rid)) = some (c ∷ id, rid)

abbrev pub untag : List ℕ → Option (ClientId × List ℕ)
untag [] = none
untag (c ∷ s) = if c == b':' then some ([], s) else prefixed c (untag s)

abbrev pub untagged : Option (List ℕ) → Option (ClientId × List ℕ)
untagged none = none
untagged (some rid) = untag rid

-- `send(…).await`: the packet comes when the queue has room, unless it is closed.
abbrev pub reply_at : Clients → ClientId → Packet → Option Queue → Clients
reply_at st id p none = st
reply_at st id p (some q) = if q.is_closed then st else keep_queue st id (some (put p q))

unfoldable pub reply : Clients → Packet → ClientId → List ℕ → Clients
reply st p id rid = reply_at st id (record p { request_id = some rid }) (lookup id st.clients)

-- Sets of clients.
abbrev pub is_member : ClientId → List ClientId → Bool
is_member id [] = false
is_member id (x ∷ ids) = if codes_eq x id then true else is_member id ids

abbrev pub with_member : ClientId → List ClientId → List ClientId
with_member id ids = if is_member id ids then ids else ids ++ (id ∷ [])

abbrev pub without_member : ClientId → List ClientId → List ClientId
without_member id ids = filter (λ x. not (codes_eq x id)) ids

abbrev pub Subscriptions : Type 0
Subscriptions = List (String × List ClientId)

-- `entry(sid).or_default().insert(id)`, and the same with `remove`.
unfoldable pub subscribe : String → ClientId → Subscriptions → Subscriptions
subscribe sid id m = insert sid (with_member id (subscribers (lookup sid m))) m

unfoldable pub unsubscribe : String → ClientId → Subscriptions → Subscriptions
unsubscribe sid id m = insert sid (without_member id (subscribers (lookup sid m))) m
