-- ===== src/Infra.antt =====
-- server/src/infra: monitoring of devices on the network.
pub mod Types
pub mod Monitor
pub mod Status
pub mod Recovery
pub mod Retrying
mod Tests
