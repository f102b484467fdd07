-- ===== src/Lib.antt =====
-- Verification of sctl, a control server for remote Linux devices.
--
-- The server keeps its state in memory, in objects shared by the tasks that serve HTTP, WebSocket
-- and tunnel clients. The parts modelled here are:
--
-- - Transfer (server/src/gawdxfer/manager.rs, types.rs): file transfers in chunks. Start holds
--   `init_download` and Start/Upload `init_upload`; Chunks holds `serve_chunk`, Chunks/Upload and
--   Chunks/Receive `receive_chunk`, Chunks/Finalize `verify_and_finalize`; Lifecycle holds `resume`,
--   `abort`, `status`, `list`, `pause_all` and `sweep_stale`. Run puts calls one after the other.
-- - Sessions (server/src/sessions): the shell sessions. Buffer (buffer.rs) holds the numbered output
--   of a session, which clients read from the number that they saw last; Entry and Journal
--   (journal.rs) its form on the disk and what a restart reads back; Session (session.rs) a session's
--   process as the manager sees it; Manager (mod.rs) the pool of sessions with its limit, its
--   attachments, the AI's permissions (Manager/Ai), the list (Manager/Listing), the sweep
--   (Manager/Sweep) and the recovery at the start (Manager/Recover). Manager/Steps lists what may
--   happen to the pool, in the order that the lock of the map gives.
-- - Auth (server/src/auth.rs): the middleware `require_api_key` and `constant_time_eq`.
-- - Activity (server/src/activity.rs): the journal that the routes and transfers write to (Log), the
--   names of its entries (Types), and the cache of exec results by the journal's ids (Cache).
-- - Infra (server/src/infra/mod.rs, monitor.rs, the result type of checks.rs): the monitoring loop's
--   work on one target: its status, its counters, and the recovery command.
-- - Watchdog (server/src/lte_watchdog.rs, parts of lte.rs and config.rs): the recovery of the LTE
--   modem when the tunnel is down. State holds `WatchdogState` with its cooldowns and resets, Cereg
--   the parser of the registration status, Snapshot what the API shows, Lte the state that the
--   watchdog shares with the modem's poller, Gate the diagnosis and the gate before a USB power
--   cycle, Dispatch the actions on a symptom, and Round, Connected, Reverts, Treat and Tick one round
--   of the loop, which Tick's `run` repeats. A round gives what it does to the device as a list of
--   effects; Episodes adds them up from one reset to the next.
-- - Modem (server/src/lte.rs): the LTE modem. Bands holds the bitmask of bands and the parsers of
--   the answers, over Bits and Hex; Dialogue the serial line, with the modem as a parameter, and
--   Change the dialogues that change the bands. They ignore whether AT+COPS=2 and AT+COPS=0
--   succeed, so Registration and Stranding follow which of the two was sent last. Polling the
--   poller's reaction to disruptions; History the signal's history by band.
-- - Tunnel (server/src/tunnel/mod.rs, relay.rs): the binary frames between a device and the relay
--   (Frame), the history of connections (History), the registration of a device at the relay and the
--   end of its connection (Registry), its pending requests and the sweep of silent devices
--   (Requests), and its clients: their queues and subscriptions (Clients) and the routing of messages
--   (Routing). On the device (server/src/tunnel/client.rs), Stream holds the batches in which a
--   session's subscriber sends the output of its Buffer, Reconnect the loop that connects again and
--   waits in between, and Events (server/src/state.rs) the statistics that it keeps.
-- - Mcp (mcp/src/websocket.rs): the client's side of the sessions. Buffer holds its copy of a session's
--   output, Dispatch what the server's messages do to it; Counting joins it to the batches of Tunnel.
-- - Supervisor (server/src/supervisor.rs): the detection of crash loops and the wait after a crash;
--   Window says which crashes it counts.
-- - Prelude: texts, lists, maps and bounded queues that the parts share.
--
-- How the code is modelled. A struct is a record with the source's field names, or, where such a
-- name is a reserved word, one named in a comment. An operation is a function from the state and its
-- arguments to the new state and the result. What the file system, the clock and the id generator
-- answer is an argument (`DownloadAnswers`, `UploadAnswers`, `ServeAnswers`), and the calls that
-- change or read files are part of the result, in order. Errors are values with their code; panics
-- are `panic` or `none`. A lock that is released and taken again splits an operation in two, the
-- checks (`serve_check`, `receive_check`) and the commits (`serve_commit`, `receive_commit`), and the
-- whole operation runs them with no other task in between. A hash map is a list of pairs whose order
-- stands for the order of iteration. Hash functions are parameters of which nothing is assumed.
--
-- Bounds. `u32` and `u64` sums wrap where the source's do in a release build: the journal's ids and
-- the buffer's numbers at 2^64, error counts at 2^32, and a chunk count is cut to 32 bits. Theorems
-- say where they need less: fewer than 2^64 - 1 entries, files below 2^32 bytes. No definition needs
-- fuel: each recursion is on a list or a number.
--
-- A clock's reading is in milliseconds. A signal strength in dBm has 2^31 added to it, and an exit
-- code is the bit pattern of its 32 bits, so that both are natural numbers.
--
-- Not modelled: processes and terminals, sockets, HTTP and WebSocket formats, the tasks of the
-- tunnel, the modem's band scan, SIM set-up and GPS, the writer of the journal's files and their
-- removal, the watchdog's history file and its file for an exhausted watchdog, the monitor's
-- configuration file, time stamps and tick over its targets, discovery, the server's configuration,
-- and the rest of the MCP client (mcp/). They are I/O around these parts, or parts that this library
-- leaves aside. The texts of log lines are left out everywhere.
pub mod Prelude
pub mod Sessions
pub mod Auth
pub mod Activity
pub mod Transfer
pub mod Infra
pub mod Mcp
pub mod Modem
pub mod Watchdog
pub mod Tunnel
pub mod Supervisor
