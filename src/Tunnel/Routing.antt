-- ===== src/Tunnel/Routing.antt =====
-- server/src/tunnel/relay.rs: what a device's message does, and what a client's message and its
-- leaving do.
use sctl.Prelude.{
  ℕ, Bool, true, false, ◌||◌, List, [], ◌∷◌, Option, none, some, String, codes, if◌then◌else◌,
  filter, starts_with, codes_key, string_eq, str_eq,
}
use mathlib.Core.List.{reverse}
use sctl.Prelude.Map.{lookup, insert, remove}
use sctl.Tunnel.Clients.{
  ClientId, Packet, Clients, broadcast, send_outputs, watching, untagged, tag, reply, is_member,
  without_member, Subscriptions, subscribe, unsubscribe,
}

abbrev pub one_of : String → List String → Bool
one_of kind [] = false
one_of kind (k ∷ ks) = str_eq k kind || one_of kind ks

-- `ends_with`
abbrev pub ends_with : List ℕ → List ℕ → Bool
ends_with suffix s = starts_with (reverse suffix) (reverse s)

abbrev pub is_output : String → Bool
is_output kind = one_of kind ("session.stdout" ∷ "session.stderr" ∷ "session.system" ∷ [])

abbrev pub is_answer : String → Bool
is_answer kind = ends_with (codes ".result") (codes kind) || ends_with (codes ".ack") (codes kind)

abbrev pub lifecycle_kinds : List String
lifecycle_kinds =
    "session.started" ∷ "session.created" ∷ "session.destroyed" ∷ "session.closed"
    ∷ "session.exited" ∷ "session.renamed" ∷ "session.ai_status_changed"
    ∷ "session.ai_permission_changed" ∷ "session.exec.ack" ∷ "session.signal.ack"
    ∷ "session.resize.ack" ∷ "session.attached" ∷ "session.listed" ∷ "session.allow_ai.ack"
    ∷ "session.ai_status.ack" ∷ "session.rename.ack" ∷ "shell.listed" ∷ "activity.new"
    ∷ "gx.progress" ∷ "gx.complete" ∷ "gx.error" ∷ "error" ∷ []

-- The kinds of the match, in the order of its arms; pings and pongs are the registry's.
pub data Route : Type 0 where
  output heartbeat answer lifecycle telemetry unknown : Route

unfoldable pub route_of : String → Route
route_of kind =
    if is_output kind
    then output
    else if one_of kind ("tunnel.ping" ∷ "tunnel.pong" ∷ [])
    then heartbeat
    else if is_answer kind
    then answer
    else if one_of kind lifecycle_kinds
    then lifecycle
    else if one_of kind ("gps.fix" ∷ "lte.signal" ∷ "lte.watchdog" ∷ [])
    then telemetry
    else unknown

abbrev pub ended : Packet → Option String → Subscriptions → Subscriptions
ended p none m = m
ended p (some sid) m =
    if one_of p.kind ("session.destroyed" ∷ "session.closed" ∷ []) then remove sid m else m

abbrev pub started_by : String → Option (ClientId × List ℕ) → Subscriptions → Subscriptions
started_by sid none m = m
started_by sid (some (id, rid)) m = subscribe sid id m

-- The client that asked for a session is subscribed to it.
abbrev pub started : Packet → Option String → Subscriptions → Subscriptions
started p none m = m
started p (some sid) m =
    if str_eq p.kind "session.started" then started_by sid (untagged p.request_id) m else m

abbrev pub reply_or_broadcast : Clients → Packet → Option (ClientId × List ℕ) → Clients
reply_or_broadcast st p none = broadcast st p
reply_or_broadcast st p (some (id, rid)) = reply st p id rid

abbrev pub answered :
    Clients → Packet → Option (List ℕ) → Option (ClientId × List ℕ) → Clients × Option (List ℕ)
answered st p rid none = (st, rid)
answered st p rid (some (id, original)) = (reply st p id original, none)

abbrev pub routed : Route → Clients → Packet → Clients × Option (List ℕ)
routed output st p = (send_outputs st p (watching st p.session_id), none)
routed heartbeat st p = (st, none)
routed answer st p = answered st p p.request_id (untagged p.request_id)
routed lifecycle st p =
    let subs = started p p.session_id (ended p p.session_id st.session_subscriptions) in
    (
      reply_or_broadcast (record st { session_subscriptions = subs }) p (untagged p.request_id),
      none,
    )
routed telemetry st p = (broadcast st p, none)
routed unknown st p = (st, none)

-- A text message of the device, with the request of the relay's own that it answers.
unfoldable pub from_device : Clients → Packet → Clients × Option (List ℕ)
unfolding route_of
from_device st p = routed (route_of p.kind) st p

unfoldable pub connect : Clients → ClientId → Clients
connect st id = record st {
  clients = insert id (record { items = []; is_closed = false }) st.clients;
}

abbrev pub noted : Packet → ClientId → Option String → Subscriptions → Subscriptions
noted p id none m = m
noted p id (some sid) m =
    if str_eq p.kind "session.attach"
    then subscribe sid id m
    else if str_eq p.kind "session.kill"
    then unsubscribe sid id m
    else m

abbrev pub or_empty_id : Option (List ℕ) → List ℕ
or_empty_id none = []
or_empty_id (some rid) = rid

-- A message of a client: its subscription, and what is sent to the device.
unfoldable pub from_client : Clients → ClientId → Packet → Clients × Packet
from_client st id p = (
  record st { session_subscriptions = noted p id p.session_id st.session_subscriptions },
  record p { request_id = some (tag id (or_empty_id p.request_id)) },
)

-- The sessions that a client is subscribed to.
unfoldable pub sessions_of : ClientId → Subscriptions → List String
sessions_of id [] = []
sessions_of id ((sid, ids) ∷ m) =
    if is_member id ids then sid ∷ sessions_of id m else sessions_of id m

-- The client is removed from every set, and the empty sets from the map.
unfoldable pub unsubscribe_all : ClientId → Subscriptions → Subscriptions
unsubscribe_all id [] = []
unsubscribe_all id ((sid, ids) ∷ m) = elim (without_member id ids) [
  | [] ↦ unsubscribe_all id m
  | ◌∷◌ x xs ↦ (sid, x ∷ xs) ∷ unsubscribe_all id m
]

abbrev pub is_unwatched : Option (List ClientId) → Bool
is_unwatched none = true
is_unwatched (some []) = true
is_unwatched (some (x ∷ xs)) = false

-- The end of a client's connection: the sessions that the device is told to detach.
unfoldable pub leave : Clients → ClientId → Clients × List String
unfolding sessions_of unsubscribe_all
leave st id =
    let subs = unsubscribe_all id st.session_subscriptions in
    (
      record st { clients = remove id st.clients; session_subscriptions = subs },
      filter (λ sid. is_unwatched (lookup sid subs)) (sessions_of id st.session_subscriptions),
    )
