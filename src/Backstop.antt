-- ===== src/Backstop.antt =====
-- The backstop contract (backstop/src).
pub mod User
pub mod Pool
pub mod State
pub mod Emissions
pub mod Execute
pub mod Claim
pub mod Zone
pub mod Contract
pub mod Ledger
mod Tests
