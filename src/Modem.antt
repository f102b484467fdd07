-- ===== src/Modem.antt =====
-- server/src/lte.rs: the LTE modem's bands and the dialogues that set them.
pub mod Bits
pub mod Hex
pub mod Bands
pub mod Masks
pub mod Answers
pub mod Dialogue
pub mod Change
pub mod Registration
pub mod Stranding
pub mod History
pub mod Summary
pub mod Polling
mod Tests
