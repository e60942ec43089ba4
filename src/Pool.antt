-- ===== src/Pool.antt =====
-- A lending pool (pool/src): reserves, positions, interest, emissions and the status of the pool.
pub mod State
pub mod Interest
pub mod Reserve
pub mod Status
pub mod Emissions
pub mod Cache
pub mod Health
pub mod User
pub mod Outside
pub mod Auction
pub mod Report
pub mod Actions
pub mod Submit
pub mod Config
pub mod Claim
pub mod Ledger
mod Settings
mod Refusals
pub mod Safety
pub mod Contract
pub mod Calls
mod Tests
mod CallTests
