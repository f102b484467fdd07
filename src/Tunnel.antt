-- ===== src/Tunnel.antt =====
-- server/src/tunnel: the reverse tunnel.
pub mod Frame
pub mod History
pub mod Registry
pub mod Replacing
pub mod Requests
pub mod Limits
pub mod Stream
pub mod Batches
pub mod Delivery
pub mod Clients
pub mod Routing
pub mod Leaving
pub mod Replies
pub mod Events
pub mod Reconnect
pub mod Backoff
pub mod Doubling
pub mod Flapping
mod Examples
mod Tests
mod ReconnectTests
