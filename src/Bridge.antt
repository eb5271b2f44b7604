-- ===== src/Bridge.antt =====
-- core/bridge.py: one device's way from a turn to a hint, to an action and to its settlement.
pub mod Context
pub mod Turns
pub mod Settling
pub mod Attempts
pub mod Steps
pub mod Balance
pub mod Sends
pub mod Acks
pub mod Held
pub mod Superseded
pub mod Ledgers
pub mod Retries
mod Runs
