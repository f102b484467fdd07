-- ===== src/Mcp.antt =====
-- mcp/src: the client of the server that gives an AI its tools.
pub mod Buffer
pub mod Dispatch
pub mod Counting
pub mod Gaps
pub mod Bounds
pub mod Attaching
mod Tests
