-- ===== src/Transfer.antt =====
-- server/src/gawdxfer: chunked, resumable file transfers.
pub mod Types
pub mod Start
pub mod Chunks
pub mod Lifecycle
pub mod Validity
pub mod Geometry
pub mod Run
pub mod Safety
pub mod Resuming
pub mod Reassembly
pub mod Sweeping
pub mod Guards
pub mod Gaps
mod Tests
