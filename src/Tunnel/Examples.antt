-- ===== src/Tunnel/Examples.antt =====
-- server/src/tunnel/client.rs, server/src/tunnel/relay.rs: batches of output and clients on examples.
use sctl.Prelude.{
  ℕ, ◌≡◌, refl, false, List, [], ◌∷◌, none, some, codes, if◌then◌else◌, codes_eq, codes_key,
  string_eq, arith, replicate, map,
}
use sctl.Prelude.Map.{lookup}
use sctl.Sessions.Entry.{OutputEntry, stdout, stderr}
use sctl.Sessions.Buffer.{new}
use sctl.Sessions.Buffer.History.{Pushed, numbered}
use sctl.Tunnel.Stream.{Message, batch_output_entries, batch_from, fits, same_stream}
use sctl.Tunnel.Batches.{Divided, batch_output_entries-Divided}
use sctl.Tunnel.Delivery.{deliver, deliver-Divided}
use sctl.Tunnel.Clients.{Packet, Queue, Clients, put, drop_one, send_output}
use sctl.Tunnel.Routing.{
  from_device, from_client, leave, route_of, unsubscribe_all, sessions_of, one_of,
}
use sctl.Tunnel.Leaving.{left_by, leave-lookup}
use sctl.Tunnel.Replies.{answer-returns, send_output-full}

abbrev entries : List OutputEntry
entries =
    record { seq = 1; stream = stdout; payload = "a"; timestamp_ms = 10 }
    ∷ record { seq = 2; stream = stdout; payload = "b"; timestamp_ms = 11 }
    ∷ record { seq = 3; stream = stderr; payload = "c"; timestamp_ms = 12 }
    ∷ []

-- Two pieces of one stream go together.
two_messages : map Message.text (batch_output_entries "s" entries) ≡ codes "ab" ∷ codes "c" ∷ []
unfolding batch_output_entries batch_from fits same_stream
two_messages = refl

batch_output_entries-Divided_example : Divided "s" entries (batch_output_entries "s" entries)
batch_output_entries-Divided_example = batch_output_entries-Divided "s" entries

abbrev pushed : Pushed
pushed = record { stream = stdout; payload = "x"; now = 5 }

deliver-Divided_example :
    Divided "s"
      (numbered 1 (pushed ∷ pushed ∷ pushed ∷ []))
      (deliver "s" (new 2) 0 ((pushed ∷ pushed ∷ []) ∷ [] ∷ (pushed ∷ []) ∷ []))
deliver-Divided_example =
    deliver-Divided "s" 2 [] ((pushed ∷ pushed ∷ []) ∷ [] ∷ (pushed ∷ []) ∷ []) (omega arith)
      (omega arith, (omega arith, (omega arith, tt)))

abbrev empty_queue : Queue
empty_queue = record { items = []; is_closed = false }

-- Two clients that watch one session, of which the first watches another alone.
abbrev two_clients : Clients
two_clients = record {
  clients = (codes "c1", empty_queue) ∷ (codes "c2", empty_queue) ∷ [];
  session_subscriptions = ("s", codes "c1" ∷ codes "c2" ∷ []) ∷ ("t", codes "c1" ∷ []) ∷ [];
  dropped_messages = 0;
}

leave-lookup_example :
    (lookup "s" (leave two_clients (codes "c1")).0.session_subscriptions
      ≡ left_by (codes "c1") (some (codes "c1" ∷ codes "c2" ∷ [])))
    × (one_of "s" (leave two_clients (codes "c1")).1 ≡ false)
    × ((j : List ℕ)
        → lookup j (leave two_clients (codes "c1")).0.clients
          ≡ (if codes_eq (codes "c1") j then none else lookup j two_clients.clients))
unfolding lookup
leave-lookup_example = leave-lookup two_clients (codes "c1") "s" (refl, (refl, tt))

-- The session that only the first client watched is detached.
detached_alone : (leave two_clients (codes "c1")).1 ≡ "t" ∷ []
unfolding leave sessions_of unsubscribe_all lookup
detached_alone = refl

abbrev request : Packet
request = record {
  kind = "session.list";
  session_id = none;
  request_id = some (codes "7:a");
  body = "";
}

abbrev response : Packet
response = record {
  kind = "session.list.result";
  session_id = none;
  request_id = some (codes "c1:7:a");
  body = "";
}

answer-returns_example :
    ((from_device two_clients response).1 ≡ none)
    × ((j : List ℕ)
        → lookup j (from_device two_clients response).0.clients ≡ (
            if codes_eq (codes "c1") j
            then some (put (record response { request_id = some (codes "7:a") }) empty_queue)
            else lookup j two_clients.clients))
unfolding lookup route_of from_client
answer-returns_example =
    answer-returns two_clients (codes "c1") request response {q = empty_queue} refl refl refl refl
      refl

abbrev full_queue : Queue
full_queue = record { items = replicate 256 request; is_closed = false }

abbrev full_client : Clients
full_client = record two_clients { clients = (codes "c1", full_queue) ∷ [] }

send_output-full_example : send_output full_client response (codes "c1") ≡ drop_one full_client
unfolding lookup
send_output-full_example =
    send_output-full full_client (codes "c1") response {q = full_queue} refl (omega arith)

abbrev started_packet : Packet
started_packet = record {
  kind = "session.started";
  session_id = some "u";
  request_id = some (codes "c1:9");
  body = "";
}

abbrev stale : Clients
stale = (from_device (leave two_clients (codes "c1")).0 started_packet).0
