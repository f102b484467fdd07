-- ===== src/Sessions.antt =====
-- server/src/sessions: the shell sessions of a device.
pub mod Entry
pub mod Buffer
pub mod Journal
pub mod Session
pub mod Manager
