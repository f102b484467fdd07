-- ===== src/Watchdog.antt =====
-- server/src/lte_watchdog.rs: the recovery of the LTE modem when the tunnel is down.
pub mod Cereg
pub mod State
pub mod Snapshot
pub mod Lte
pub mod Gate
pub mod Dispatch
pub mod Round
pub mod Connected
pub mod Reverts
pub mod Treat
pub mod Tick
pub mod Bounds
pub mod Actions
pub mod Caution
pub mod Keeping
pub mod Spending
pub mod Episodes
pub mod Accounts
pub mod Charges
pub mod Thrift
pub mod Always
pub mod Usb
pub mod Stays
mod Tests
